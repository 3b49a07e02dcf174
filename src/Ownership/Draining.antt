-- ===== src/Ownership/Draining.antt =====
-- The loops of `tboard_destroy` (src/tboard.c) that empty the queues.
use jam_tboard.Common.{
  ℕ, zero, suc, ◌+◌, ◌<◌, ◌≤◌, ◌≡◌, refl, ap, ◌∙◌, Option, none, some, [], ◌∷◌, count, total-update,
  total-eq-zero, arith, inl, inr, Option-cases,
}
use native.Mathlib.Decide.{dec_lt}
use jam_tboard.Task.{Ptr}
use jam_tboard.Env.{Env}
use jam_tboard.Queue.{Queue}
use jam_tboard.Board.{Board, M}
use jam_tboard.Destroy.{task_destroy, remote_task_destroy}
use jam_tboard.Lifecycle.{
  drain, drain_secondaries, drain_queues, put_primary, put_secondary, put_sent, put_recv,
}
use jam_tboard.Ownership.Defs.{
  closed, Held, nothing, Sound, Returns, returns, Returns-bind, Returns-mono, live, parent_refs,
  caller_refs, queued, awaited, mailed,
}
use jam_tboard.Ownership.Frame.{Sound-queues, Sound-closed}
use jam_tboard.Ownership.Remotes.{mail-Sound}
use jam_tboard.Ownership.Destruction.{
  SameEntries, task_destroy-Returns, remote_task_destroy-Returns,
}

-- Nothing is held, and concurrent tasks are no longer counted.
abbrev pub closing : Held
closing = record nothing { pending = closed }

pub none-of-dead {ℓ} : {A : Type ℓ} (o : Option A) → live o ≡ 0 → o ≡ none
none-of-dead none e = refl
none-of-dead (some a) e = absurd (omega arith)

module _ {env : Env} where
  -- A drain loop keeps what each of its rounds keeps.
  drain-Returns :
      (put : Queue Ptr → Board env → Board env) (destroy : Option Ptr → M env (Unit {0}))
      (Is : Queue Ptr → Board env → Type 0)
      → ((p : Ptr) (q : Queue Ptr) (t : Board env)
          → Is (p ∷ q) t
          → Returns (λ _ u. Is q u) (destroy (some p) (put q t)))
      → (q : Queue Ptr) (t : Board env) → Is q t
      → Returns (λ _ u. Is [] u) (drain put destroy q t)
  unfolding drain
  drain-Returns put destroy Is step [] t is = returns is
  drain-Returns put destroy Is step (p ∷ q) t is =
      Returns-bind (step p q t is) λ _ u kept. drain-Returns put destroy Is step q u kept

  -- The first `k` secondary queues are empty.
  abbrev Emptied : ℕ → Board env → Type 0
  Emptied k t = (j : ℕ) → j < k → t.squeue j ≡ []

  abbrev AtSecondary : ℕ → ℕ → Queue Ptr → Board env → Type 0
  AtSecondary n i q t = Sound closing t × (t.sqs ≡ n) × Emptied i t × (t.squeue i ≡ q)

  secondary_step :
      (n i : ℕ) (p : Ptr) (q : Queue Ptr) (t : Board env)
      → i < n
      → AtSecondary n i (p ∷ q) t
      → Returns (λ _ u. AtSecondary n i q u) (task_destroy (some p) (put_secondary i q t))
  unfolding queued count
  secondary_step n i p q t lt (s, size, emptied, e) =
      Returns-mono
        (task_destroy-Returns closing (λ a. refl) refl p
          (Sound-queues s (ground arith)
            (λ a.
              omega
                (arith, total-update (count a) t.sqs t.squeue i q (omega arith), ap (count a) e))
            refl refl refl))
        λ _ u k. (
          k.0,
          k.1.sqs ∙ size,
          (λ j le. ap (λ f. f j) k.1.squeue ∙ ground (arith, emptied j le)),
          ap (λ f. f i) k.1.squeue ∙ ground arith,
        )

  secondaries-Returns :
      (rounds i : ℕ) (t : Board env)
      → Sound closing t
      → rounds + i ≡ t.sqs
      → Emptied i t
      → Returns (λ _ u. Sound closing u × Emptied u.sqs u) (drain_secondaries rounds i t)
  unfolding drain_secondaries
  secondaries-Returns zero i t s e emptied = returns (s, λ j lt. emptied j (omega arith))
  secondaries-Returns (suc rounds) i t s e emptied =
      Returns-bind
        (drain-Returns (put_secondary i) task_destroy (AtSecondary t.sqs i)
          (λ p q u is. secondary_step t.sqs i p q u (omega arith) is) (t.squeue i) t
          (s, refl, emptied, refl))
        λ _ (u : Board env) is.
          secondaries-Returns rounds (suc i) u is.0 (omega (arith, is.1)) (λ j lt.
            elim (dec_lt j i) [ yes less ↦ is.2 j less | no ge ↦ ap u.squeue (omega arith) ∙ is.3 ])

  abbrev AtPrimary : Queue Ptr → Board env → Type 0
  AtPrimary q t = Sound closing t × Emptied t.sqs t × (t.pqueue ≡ q)

  Emptied-kept : {t u : Board env} → SameEntries t u → Emptied t.sqs t → Emptied u.sqs u
  Emptied-kept k emptied j lt = ap (λ f. f j) k.squeue ∙ emptied j (rw (← k.sqs) lt)

  primary_step :
      (p : Ptr) (q : Queue Ptr) (t : Board env)
      → AtPrimary (p ∷ q) t
      → Returns (λ _ u. AtPrimary q u) (task_destroy (some p) (put_primary q t))
  unfolding queued count
  primary_step p q t (s, emptied, e) =
      Returns-mono
        (task_destroy-Returns closing (λ a. refl) refl p
          (Sound-queues s (ground arith) (λ a. rw e (omega arith)) refl refl refl))
        λ _ u k. (k.0, Emptied-kept k.1 emptied, k.1.pqueue)

  abbrev AtSent : Queue Ptr → Board env → Type 0
  AtSent q t = Sound closing t × Emptied t.sqs t × (t.pqueue ≡ []) × (t.msg_sent ≡ q)

  sent_step :
      (p : Ptr) (q : Queue Ptr) (t : Board env)
      → AtSent (p ∷ q) t
      → Returns (λ _ u. AtSent q u) (remote_task_destroy (some p) (put_sent q t))
  unfolding mailed count
  sent_step p q t (s, emptied, ready, e) =
      Returns-mono
        (remote_task_destroy-Returns closing (λ a. refl) refl p
          (mail-Sound s q t.msg_recv t.signals (λ a. rw e (omega arith)) refl refl refl refl))
        λ _ u k. (k.0, Emptied-kept k.1 emptied, k.1.pqueue ∙ ready, k.1.msg_sent)

  abbrev AtReceived : Queue Ptr → Board env → Type 0
  AtReceived q t =
      Sound closing t × Emptied t.sqs t × (t.pqueue ≡ []) × (t.msg_sent ≡ []) × (t.msg_recv ≡ q)

  received_step :
      (p : Ptr) (q : Queue Ptr) (t : Board env)
      → AtReceived (p ∷ q) t
      → Returns (λ _ u. AtReceived q u) (remote_task_destroy (some p) (put_recv q t))
  unfolding mailed count
  received_step p q t (s, emptied, ready, sent, e) =
      Returns-mono
        (remote_task_destroy-Returns closing (λ a. refl) refl p
          (mail-Sound s t.msg_sent q t.signals (λ a. rw e (omega arith)) refl refl refl refl))
        λ _ u k.
          (k.0, Emptied-kept k.1 emptied, k.1.pqueue ∙ ready, k.1.msg_sent ∙ sent, k.1.msg_recv)

  module _ {t : Board env} (all : AtReceived [] t) where
    no_remotes : (r : Ptr) → t.remotes r ≡ none
    unfolding mailed count
    no_remotes r =
        none-of-dead (t.remotes r)
          (omega (arith, all.0.mailed_once r, ap (count r) all.3, ap (count r) all.4))

    -- A parent is older, and a task above `a` is gone.
    unreferred : (a p : Ptr) → (a < p → t.tasks p ≡ none) → parent_refs a (t.tasks p) ≡ 0
    unreferred a p gone = elim (Option-cases (t.tasks p)) [
      | inl e ↦ rw e refl
      | inr (x, e) ↦ elim (Option-cases x.parent) [
        | inl root ↦ rw (e, root) refl
        | inr (q, up) ↦ rw (e, up) (ground (arith, gone, all.0.older p q x e up))
      ]
    ]

    -- From the youngest address down, for nothing is left that could refer to a task.
    no_tasks : (k a : ℕ) → t.next ≤ a + k → t.tasks a ≡ none
    unfolding queued awaited count
    no_tasks zero a le = all.0.fresh_task a (omega arith)
    no_tasks (suc k) a le = none-of-dead (t.tasks a) (
        omega (
          arith,
          all.0.once a,
          ap (count a) all.2,
          total-eq-zero (count a) t.sqs t.squeue (λ j lt. ap (count a) (all.1 j lt)),
          total-eq-zero (caller_refs a) t.next t.remotes (λ r lt. rw (no_remotes r) refl),
          total-eq-zero (parent_refs a) t.next t.tasks
              (λ p lt. unreferred a p (λ above. no_tasks k p (omega arith))),
        ))

  -- After the queues are empty, what is left is the history.
  pub drain_queues-Sound :
      (t : Board env)
      → Sound nothing t
      → Returns
          (λ _ u.
            Sound closing u × ((p : Ptr) → u.tasks p ≡ none) × ((r : Ptr) → u.remotes r ≡ none))
          (drain_queues t)
  unfolding drain_queues
  drain_queues-Sound t s =
      Returns-bind
        (secondaries-Returns t.sqs 0 t (Sound-closed s) (omega arith)
          (λ j lt. absurd (omega arith)))
        λ _ u emptied.
          Returns-bind
            (drain-Returns put_primary task_destroy AtPrimary primary_step u.pqueue u
              (emptied.0, emptied.1, refl))
            λ _ v ready.
              Returns-bind
                (drain-Returns put_sent remote_task_destroy AtSent sent_step v.msg_sent v
                  (ready.0, ready.1, ready.2, refl))
                λ _ w sent.
                  Returns-mono
                    (drain-Returns put_recv remote_task_destroy AtReceived received_step w.msg_recv
                      w (sent.0, sent.1, sent.2, sent.3, refl))
                    λ _ x all. (all.0, (λ p. no_tasks all x.next p (omega arith)), no_remotes all)

  -- From a sound memory in which no thread holds anything, emptying the queues at the end
  -- neither faults nor runs out of fuel, and after it no task and no remote task is
  -- allocated: those that waited for others have been freed with them.
  pub drain_queues-Returns :
      (t : Board env)
      → Sound nothing t
      → Returns
          (λ _ u. ((p : Ptr) → u.tasks p ≡ none) × ((r : Ptr) → u.remotes r ≡ none))
          (drain_queues t)
  drain_queues-Returns t s =
      Returns-mono (drain_queues-Sound t s) λ _ u (sound, tasks, remotes). (tasks, remotes)
