-- ===== src/Ownership/Tasks.antt =====
-- What reading, writing, placing and freeing a task does to a sound memory.
use mathlib.Core.Path.{subst}
use jam_tboard.Common.{
  sum-ge, ℕ, zero, suc, ◌+◌, ◌-◌, ◌≤◌, ◌<◌, ◌≡◌, ◌≢◌, refl, ap, ◌∙◌, Option, none, some, ℤ, hit,
  total, update, arith, pos, dec,
}
use jam_tboard.Task.{Ptr, Task}
use jam_tboard.Env.{Env}
use jam_tboard.Board.{Board, load_task, store_task, free_task, alloc_task, free_data}
use jam_tboard.Counter.{tboard_deinc_concurrent}
use jam_tboard.Place.{place, task_place}
use jam_tboard.Create.{destroy_context}
use jam_tboard.Destroy.{free_sized, release_task}
use jam_tboard.Ownership.Defs.{
  short, Shifts, IsTallied, Held, Sound, IsRecorded, Returns, returns, Returns-mono, opt_hit, live,
  parent_refs, root, queued, awaited, mailed, roots,
}
use jam_tboard.Ownership.Frame.{
  SameMemory, place-SameMemory, queued-place, Sound-queues, SameMemory-free_sized, free_sized-Sound,
  coros-Sound,
}
use jam_tboard.Ownership.Memory.{
  write_task, bump, live-lt-next, Shifts-refl, Sound-write_task, Sound-bump,
}

pub total-ge {ℓ} :
    {A : Type ℓ} (w : A → ℕ) (n : ℕ) (f : ℕ → A) (i : ℕ) → i < n → w (f i) ≤ total w n f
total-ge w n f i lt = sum-ge (λ j. w (f j)) n i lt

pub some-of-live {ℓ} : {A : Type ℓ} (o : Option A) → 1 ≤ live o → (x : A) × (o ≡ some x)
some-of-live none le = absurd (omega arith)
some-of-live (some x) le = (x, refl)

dec-pos : (n : ℕ) → 0 < n → dec (pos n) ≡ pos (n - 1)
unfolding dec
dec-pos zero lt = absurd (omega arith)
dec-pos (suc n) lt = ap pos (omega arith)

module _ {env : Env} where
  module _ {h : Held} {t : Board env} (s : Sound h t) where
    -- The parent of a live task is live.
    pub parent-live :
        {p q : Ptr} {x : Task}
        → t.tasks p ≡ some x
        → x.parent ≡ some q
        → h.debt q ≡ 0
        → (y : Task) × (t.tasks q ≡ some y)
    unfolding awaited
    parent-live {p} {q} {x} at up nodebt =
        let refs = total-ge (parent_refs q) t.next t.tasks p (live-lt-next s p x at) in
        some-of-live (t.tasks q) (ground (arith, s.once q, refs))

    pub root-le-roots : {p : Ptr} {x : Task} → t.tasks p ≡ some x → root (some x) ≤ roots t
    unfolding roots
    root-le-roots {p} {x} at =
        ground (arith, total-ge root t.next t.tasks p (live-lt-next s p x at))

    pub store_task-Returns :
        {p : Ptr} {x : Task} (y : Task)
        → t.tasks p ≡ some x
        → y.parent ≡ x.parent
        → (opt_hit h.new p ≡ 0 → IsRecorded t y)
        → Returns (λ _ u. Sound h u × (u ≡ write_task t p (some y))) (store_task p y t)
    unfolding store_task
    store_task-Returns {p} {x} y at up rec =
        rw (at, store_task)
          (returns (
            Sound-write_task s p (some y) (live-lt-next s p x at) (λ a. rw (at, up) refl) refl
                (rw (at, up) (Shifts-refl h.pending _)) (λ q z e f. s.older p q x at (ground arith))
                (λ z e n. ground (arith, rec n)) (λ a ne n. n),
            refl,
          ))

    -- A task that had no history entry gets one.
    pub settle_task-Returns :
        {p : Ptr} {x : Task} (y : Task)
        → t.tasks p ≡ some x
        → y.parent ≡ x.parent
        → h.new ≡ some p
        → IsRecorded t y
        → Returns
            (λ _ u. Sound (record h { new = none }) u × (u ≡ write_task t p (some y)))
            (store_task p y t)
    unfolding store_task
    settle_task-Returns {p} {x} y at up en rec =
        rw (at, store_task)
          (returns (
            Sound-write_task s p (some y) (live-lt-next s p x at) (λ a. rw (at, up) refl) refl
                (rw (at, up) (Shifts-refl h.pending _)) (λ q z e f. s.older p q x at (ground arith))
                (λ z e n. subst (IsRecorded t) {x = y} {y = z} (cc) rec)
                (λ a ne n. rw en (ground arith)),
            refl,
          ))

    pub free_task-Returns :
        {h' : Held} {p : Ptr} {x : Task}
        → t.tasks p ≡ some x
        → ((a : Ptr) → h'.hand a + hit p a + h.debt a ≡ h.hand a + opt_hit x.parent a + h'.debt a)
        → h'.rhand ≡ h.rhand
        → Shifts (root (some x)) 0 h.pending h'.pending
        → ((a : Ptr) → p ≢ a → opt_hit h'.new a ≡ 0 → opt_hit h.new a ≡ 0)
        → Returns (λ _ u. Sound h' u × (u ≡ write_task t p none)) (free_task p t)
    unfolding free_task
    free_task-Returns {p} {x} at hands er ep en =
        rw (at, free_task)
          (returns (
            Sound-write_task s p none (live-lt-next s p x at) (λ a. rw at (ground (arith, hands a)))
                er (rw at ep) (λ q z e f. cc) (λ z e n. cc) en,
            refl,
          ))

    -- A placed task moves from a hand, or from a debt, to a ready queue.
    pub place-Sound :
        {h' : Held} (type : ℤ) (p : Ptr)
        → ((a : Ptr) → hit p a + h'.hand a + h.debt a ≡ h.hand a + h'.debt a)
        → h'.rhand ≡ h.rhand
        → h'.pending ≡ h.pending
        → h'.new ≡ h.new
        → Sound h' (place type p t)
    place-Sound type p hands er ep en =
        Sound-queues s (place-SameMemory type p t)
          (λ a. omega (arith, queued-place type p t a, hands a)) er ep en

    pub task_place-Returns :
        {h' : Held} {p : Ptr} {x : Task}
        → t.tasks p ≡ some x
        → ((a : Ptr) → hit p a + h'.hand a + h.debt a ≡ h.hand a + h'.debt a)
        → h'.rhand ≡ h.rhand
        → h'.pending ≡ h.pending
        → h'.new ≡ h.new
        → Returns (λ _ u. Sound h' u × SameMemory t u) (task_place p t)
    unfolding task_place load_task
    task_place-Returns {p} {x} at hands er ep en =
        rw at (returns (place-Sound x.type p hands er ep en, place-SameMemory x.type p t))

    pub deinc-Sound :
        0 < roots t
        → h.pending ≡ short 0
        → Sound (record h { pending = short 1 }) (tboard_deinc_concurrent t)
    unfolding tboard_deinc_concurrent dec mailed queued awaited roots
    deinc-Sound some_root ep = record {
      once = s.once;
      mailed_once = s.mailed_once;
      fresh_task = s.fresh_task;
      fresh_remote = s.fresh_remote;
      older = s.older;
      called = s.called;
      counted =
          let (n, c, k, m) = subst (λ z. IsTallied z t.task_count (roots t)) ep s.counted in
          (n - 1, ap dec c ∙ dec-pos n (omega arith), omega arith, omega arith);
      recorded = s.recorded;
      tabled = s.tabled;
      listed = s.listed;
      fresh_hist = s.fresh_hist;
    }

  -- What the destruction of tasks leaves alone.
  pub record SameQueues (t u : Board env) : Type 0 where
    pub pqueue : u.pqueue ≡ t.pqueue
    pub squeue : u.squeue ≡ t.squeue
    pub msg_sent : u.msg_sent ≡ t.msg_sent
    pub msg_recv : u.msg_recv ≡ t.msg_recv
    pub sqs : u.sqs ≡ t.sqs
    pub remotes : u.remotes ≡ t.remotes

  pub SameQueues-trans : {t u v : Board env} → SameQueues t u → SameQueues u v → SameQueues t v
  SameQueues-trans m n = record {
    pqueue = n.pqueue ∙ m.pqueue;
    squeue = n.squeue ∙ m.squeue;
    msg_sent = n.msg_sent ∙ m.msg_sent;
    msg_recv = n.msg_recv ∙ m.msg_recv;
    sqs = n.sqs ∙ m.sqs;
    remotes = n.remotes ∙ m.remotes;
  }

  pub SameQueues-free_sized :
      (size : ℕ) (d : Option Ptr) (t : Board env) → SameQueues t (free_sized size d t)
  unfolding free_sized free_data
  SameQueues-free_sized size d t = ground arith

  -- Freed arguments, coroutines and signals do not matter here.
  pub release_task-Returns :
      {h h' : Held} {t : Board env}
      → Sound h t
      → {p : Ptr} {x : Task} → t.tasks p ≡ some x
      → ((a : Ptr) → h'.hand a + hit p a + h.debt a ≡ h.hand a + opt_hit x.parent a + h'.debt a)
      → h'.rhand ≡ h.rhand
      → Shifts (root (some x)) 0 h.pending h'.pending
      → h'.new ≡ h.new
      → Returns
          (λ _ u. Sound h' u × (u.tasks ≡ update t.tasks p none) × SameQueues t u)
          (release_task p x t)
  unfolding release_task destroy_context
  release_task-Returns {t} s {p} {x} at hands er ep en =
      let m = SameMemory-free_sized x.data_size x.desc.user_data t in
      let q = SameQueues-free_sized x.data_size x.desc.user_data t in
      Returns-mono
        (free_task-Returns (coros-Sound _ (free_sized-Sound x.data_size x.desc.user_data s))
          (ap (λ f. f p) m.tasks ∙ at) hands er ep (λ a ne n. rw (← en) n))
        (λ _ u r. (
          r.0,
          ap (λ (w : Board env). w.tasks) r.1 ∙ ap (λ f. update f p none) m.tasks,
          record {
            pqueue = ap (λ (w : Board env). w.pqueue) r.1 ∙ q.pqueue;
            squeue = ap (λ (w : Board env). w.squeue) r.1 ∙ q.squeue;
            msg_sent = ap (λ (w : Board env). w.msg_sent) r.1 ∙ q.msg_sent;
            msg_recv = ap (λ (w : Board env). w.msg_recv) r.1 ∙ q.msg_recv;
            sqs = ap (λ (w : Board env). w.sqs) r.1 ∙ q.sqs;
            remotes = ap (λ (w : Board env). w.remotes) r.1 ∙ q.remotes;
          },
        ))

  -- A new object, which `calloc` puts at an address that nothing refers to.
  pub alloc_task-Returns :
      {h h' : Held} {t : Board env}
      → Sound h t
      → (y : Task)
      → ((a : Ptr)
          → h'.hand a + opt_hit y.parent a + h.debt a ≡ h.hand a + hit t.next a + h'.debt a)
      → h'.rhand ≡ h.rhand
      → Shifts 0 (root (some y)) h.pending h'.pending
      → ((q : Ptr) → y.parent ≡ some q → q < t.next)
      → (opt_hit h'.new t.next ≡ 0 → IsRecorded t y)
      → ((a : Ptr) → t.next ≢ a → opt_hit h'.new a ≡ 0 → opt_hit h.new a ≡ 0)
      → Returns
          (λ q u. Sound h' u × (q ≡ t.next) × (u ≡ write_task (bump t) t.next (some y)))
          (alloc_task y t)
  unfolding alloc_task
  alloc_task-Returns {t} s y hands er ep old rec new =
      let free = s.fresh_task t.next (omega arith) in
      returns (
        Sound-write_task (Sound-bump s) t.next (some y) (omega arith)
            (λ a. rw free (ground (arith, hands a))) er (rw free ep)
            (λ q x e up. old q (ground arith))
            (λ x e n. subst (IsRecorded t) {x = y} {y = x} (cc) (rec n)) new,
        refl,
        refl,
      )
