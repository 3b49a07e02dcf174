-- ===== src/Ownership/Destruction.antt =====
-- `task_destroy` and `remote_task_destroy` of src/tboard.c free a task with all that waits for it.
use mathlib.Core.Path.{subst}
use jam_tboard.Common.{
  ℕ, zero, suc, ◌+◌, ◌<◌, ◌≤◌, ◌≡◌, refl, sym, ap, ◌∙◌, true, Option, none, some, hit, update,
  arith, inl, inr, Bool-cases, Option-cases,
}
use jam_tboard.Task.{Ptr, Task, RemoteTask}
use jam_tboard.Env.{Env}
use jam_tboard.Board.{Board, load_task, load_remote, free_remote, modify, and_then}
use jam_tboard.Destroy.{free_sized, destroy_chain, task_destroy, remote_task_destroy}
use jam_tboard.Ownership.Defs.{
  closed, Held, with_task, with_remote, with_debt, Sound, Returns, returns, Returns-bind,
  Returns-mono, caller_refs, awaited,
}
use jam_tboard.Ownership.Frame.{Sound-hands, free_sized-Sound}
use jam_tboard.Ownership.Memory.{live-lt-next, remote-lt-next}
use jam_tboard.Ownership.Tasks.{
  total-ge, some-of-live, parent-live, release_task-Returns, SameQueues, SameQueues-trans,
  SameQueues-free_sized,
}
use jam_tboard.Ownership.Remotes.{free_remote-Returns}

update_above : {p a : ℕ} (f : ℕ → Option Task) (x : Option Task) → p < a → update f p x a ≡ f a
update_above f x lt = ground arith

module _ {env : Env} where
  abbrev Above : Ptr → Board env → Board env → Type 0
  Above p t u = SameQueues t u × ((a : Ptr) → p < a → u.tasks a ≡ t.tasks a)

  SameQueues-refl : (t : Board env) → SameQueues t t
  SameQueues-refl t = ground arith

  -- `fuel` above the address is enough, for a parent was allocated before its child.
  destroy_chain-Returns :
      (fuel : ℕ) {h : Held} {t : Board env} (p : Ptr) (x : Task)
      → ((a : Ptr) → a < p → h.debt a ≡ 0)
      → h.pending ≡ closed
      → Sound (with_task p h) t
      → t.tasks p ≡ some x
      → p < fuel
      → Returns (λ _ u. Sound h u × Above p t u) (destroy_chain fuel (some p) t)
  unfolding destroy_chain load_task
  destroy_chain-Returns zero p x debts ec s at lt = absurd (omega arith)
  destroy_chain-Returns (suc fuel) {h} {t} p x debts ec s at lt = rw at (
      Returns-bind
        {P = λ _ u.
          Sound (with_debt x.parent (with_task p h)) u
          × SameQueues t u
          × ((a : Ptr) → p ≤ a → u.tasks a ≡ t.tasks a)}
        (elim (Option-cases x.parent) [
          | inl e ↦ subst (Goal) (sym e) (
              returns
                (Sound-hands s (λ a. omega arith) refl refl refl, SameQueues-refl t, λ a le. refl))
          | inr (q, e) ↦
              let younger = s.older p q x at e in
              let (y, there) = parent-live s at e (debts q (omega arith)) in
              subst (Goal) (sym e) (
                Returns-mono
                  (destroy_chain-Returns fuel {h = with_debt (some q) (with_task p h)} q y
                    (λ a le. ground (arith, debts a (omega arith))) ec
                    (Sound-hands s (λ a. omega arith) refl refl refl) there (omega arith))
                  (λ _ u r. (r.0, r.1.0, λ a le. r.1.1 a (omega arith))))
        ])
        λ _ u (s1, same, above).
          Returns-mono
            (release_task-Returns {h' = h} s1 {p = p} {x = x} (above p (omega arith) ∙ at)
              (λ a. omega arith) refl (rw ec tt) refl)
            (λ _ v r. (
              r.0,
              (
                SameQueues-trans same r.2,
                λ a lt. ap (λ f. f a) r.1 ∙ update_above u.tasks none lt ∙ above a (omega arith),
              ),
            )))
    where
      Goal : Option Ptr → Type 0
      Goal o =
          Returns
            (λ _ u.
              Sound (with_debt o (with_task p h)) u
              × SameQueues t u
              × ((a : Ptr) → p ≤ a → u.tasks a ≡ t.tasks a))
            (destroy_chain fuel o t)

  -- What the destruction of remote tasks leaves alone too.
  pub record SameEntries (t u : Board env) : Type 0 where
    pub pqueue : u.pqueue ≡ t.pqueue
    pub squeue : u.squeue ≡ t.squeue
    pub msg_sent : u.msg_sent ≡ t.msg_sent
    pub msg_recv : u.msg_recv ≡ t.msg_recv
    pub sqs : u.sqs ≡ t.sqs

  SameEntries-of : {t u : Board env} → SameQueues t u → SameEntries t u
  SameEntries-of m = record {
    pqueue = m.pqueue;
    squeue = m.squeue;
    msg_sent = m.msg_sent;
    msg_recv = m.msg_recv;
    sqs = m.sqs;
  }

  pub SameEntries-trans : {t u v : Board env} → SameEntries t u → SameEntries u v → SameEntries t v
  SameEntries-trans m n = record {
    pqueue = n.pqueue ∙ m.pqueue;
    squeue = n.squeue ∙ m.squeue;
    msg_sent = n.msg_sent ∙ m.msg_sent;
    msg_recv = n.msg_recv ∙ m.msg_recv;
    sqs = n.sqs ∙ m.sqs;
  }

  task_destroy-kept :
      {h : Held} {t : Board env} (p : Ptr)
      → ((a : Ptr) → a < p → h.debt a ≡ 0)
      → h.pending ≡ closed
      → Sound (with_task p h) t
      → (x : Task) × (t.tasks p ≡ some x)
      → Returns (λ _ u. Sound h u × SameQueues t u) (task_destroy (some p) t)
  unfolding task_destroy
  task_destroy-kept {t} p debts ec s (x, at) =
      Returns-mono (destroy_chain-Returns t.next p x debts ec s at (live-lt-next s p x at))
        λ _ u r. (r.0, r.1.0)

  release_remote-Returns :
      {h h' : Held} {t : Board env}
      → Sound h t
      → {r : Ptr} {x : RemoteTask} → t.remotes r ≡ some x
      → ((a : Ptr) → h'.rhand a + hit r a ≡ h.rhand a)
      → ((a : Ptr) → h'.hand a + h.debt a ≡ h.hand a + caller_refs a (some x) + h'.debt a)
      → h'.pending ≡ h.pending
      → h'.new ≡ h.new
      → Returns
          (λ _ u. Sound h' u × SameEntries t u)
          (and_then (modify (free_sized x.data_size x.payload) t) (λ _. free_remote r))
  release_remote-Returns {t} s {r} {x} at rhands hands ep en =
      let m = SameQueues-free_sized x.data_size x.payload t in
      Returns-mono
        (free_remote-Returns (free_sized-Sound x.data_size x.payload s)
          (ap (λ f. f r) m.remotes ∙ at) rhands hands ep en)
        λ _ u e.
          let n = SameEntries-of m in
          (
            e.0,
            subst (SameEntries t) (sym e.1) (record {
              pqueue = n.pqueue;
              squeue = n.squeue;
              msg_sent = n.msg_sent;
              msg_recv = n.msg_recv;
              sqs = n.sqs;
            }),
          )

  module _ (h : Held) {t : Board env} (debts : (a : Ptr) → h.debt a ≡ 0)
      (ec : h.pending ≡ closed) where
    -- Destroying a task in hand with the chain of its parents neither faults nor runs out
    -- of fuel, leaves the memory sound without it and leaves every queue as it was.
    -- Conditions: no task in debt, and the count of tasks is closed.
    pub task_destroy-Returns :
        (p : Ptr)
        → Sound (with_task p h) t
        → Returns (λ _ u. Sound h u × SameEntries t u) (task_destroy (some p) t)
    task_destroy-Returns p s =
        Returns-mono
          (task_destroy-kept p (λ a lt. debts a) ec s
            (some-of-live (t.tasks p) (ground (arith, s.once p, debts p))))
          λ _ u r. (r.0, SameEntries-of r.1)

    -- The task that waits for a remote task is live.
    caller-live :
        (r q : Ptr) (x : RemoteTask)
        → Sound (with_remote r h) t
        → t.remotes r ≡ some x
        → x.blocking ≡ true
        → x.calling_task ≡ some q
        → (y : Task) × (t.tasks q ≡ some y)
    unfolding awaited
    caller-live r q x s at b e =
        let refs = total-ge (caller_refs q) t.next t.remotes r (remote-lt-next s r x at) in
        some-of-live (t.tasks q) (ground (arith, s.once q, refs, debts q))

    remote_at-Returns :
        (r : Ptr) (x : RemoteTask)
        → Sound (with_remote r h) t
        → t.remotes r ≡ some x
        → Returns (λ _ u. Sound h u × SameEntries t u) (remote_task_destroy (some r) t)
    unfolding remote_task_destroy load_remote
    remote_at-Returns r x s at = rw at (elim (Bool-cases x.blocking) [
      | inl b ↦ elim (Option-cases x.calling_task) [
        | inl e ↦ absurd (ground (arith, s.called r x at))
        | inr (q, e) ↦
            rw (b, e)
              (Returns-bind
                (task_destroy-kept {h = with_debt (some q) (with_remote r h)} q
                  (λ a lt. ground (arith, debts a)) ec
                  (Sound-hands s (λ a. omega arith) refl refl refl) (caller-live r q x s at b e))
                λ _ u k.
                  Returns-mono
                    (release_remote-Returns {h' = h} k.0 (ap (λ f. f r) k.1.remotes ∙ at)
                      (λ a. refl) (λ a. rw (b, e) (omega arith)) refl refl)
                    λ _ v n. (n.0, SameEntries-trans (SameEntries-of k.1) n.1))
      ]
      | inr b ↦ rw b (release_remote-Returns s at (λ a. refl) (λ a. rw b (omega arith)) refl refl)
    ])

    -- Destroying a remote task in hand, with the chain of tasks that waits for it when it
    -- is a blocking one, neither faults nor runs out of fuel, leaves the memory sound
    -- without it and leaves every queue as it was. Conditions: no task in debt, and the
    -- count of tasks is closed.
    pub remote_task_destroy-Returns :
        (r : Ptr)
        → Sound (with_remote r h) t
        → Returns (λ _ u. Sound h u × SameEntries t u) (remote_task_destroy (some r) t)
    remote_task_destroy-Returns r s =
        let (x, at) = some-of-live (t.remotes r) (ground (arith, s.mailed_once r)) in
        remote_at-Returns r x s at
