-- ===== src/Ownership/Fetching.antt =====
-- The task that `executor` of src/executor.c takes is live, in its hand alone, and from a queue of
-- the board.
use jam_tboard.Common.{
  ℕ, zero, suc, ◌+◌, ◌<◌, ◌≡◌, refl, ap, Option, none, some, [], ◌∷◌, count, total-update, arith,
  ◌⊎◌, inl, inr, false, Bool-cases, eq_ℤ,
}
use jam_tboard.Task.{Ptr, Task, primary_exec}
use jam_tboard.Env.{Env}
use jam_tboard.Queue.{Queue, queue_pop_head, queue_peek_front}
use jam_tboard.Board.{Board}
use jam_tboard.Executor.Fetch.{
  Exec, Slot, primary, secondary, pop_primary, pop_secondary, steal, fetch,
}
use jam_tboard.Ownership.Defs.{Held, with_task, Sound, queued}
use jam_tboard.Ownership.Frame.{Sound-queues}
use jam_tboard.Ownership.Tasks.{total-ge, some-of-live}
use jam_tboard.Ownership.Yielding.{IsSlot}

-- A secondary executor has a queue of its own.
abbrev pub IsExec : ℕ → Exec → Type 0
IsExec sqs args = eq_ℤ args.type primary_exec ≡ false → args.num < sqs

Queue-cases :
    (q : Queue Ptr)
    → (queue_peek_front q ≡ none)
      ⊎ ((p : Ptr) × (rest : Queue Ptr) × (queue_peek_front q ≡ some p) × (q ≡ p ∷ rest))
unfolding queue_peek_front
Queue-cases [] = inl refl
Queue-cases (p ∷ rest) = inr (p, rest, refl, refl)

module _ {env : Env} where
  -- The task was at the front of this queue, and the queue has the rest.
  abbrev pub TakenFrom : Board env → Slot → Ptr → Board env → Type 0
  TakenFrom t primary p u = (t.pqueue ≡ p ∷ u.pqueue) × (u.squeue ≡ t.squeue)
  TakenFrom t (secondary i) p u = (t.squeue i ≡ p ∷ u.squeue i) × (u.pqueue ≡ t.pqueue)

  abbrev pub Fetched : Held → Board env → Option (Ptr × Slot) × Board env → Type 0
  Fetched h t (none, u) = Sound h u
  Fetched h t (some (p, slot), u) =
      Sound (with_task p h) u
      × IsSlot u.sqs slot
      × ((x : Task) × (u.tasks p ≡ some x) × TakenFrom t slot p u)

  module _ {h : Held} {t : Board env} (s : Sound h t) (debts : (a : Ptr) → h.debt a ≡ 0) where
    -- What is in a ready queue is live.
    queued-live : (p : Ptr) → 0 < queued t p → (x : Task) × (t.tasks p ≡ some x)
    queued-live p le = some-of-live (t.tasks p) (omega (arith, s.once p, debts p))

    pop_primary-Fetched : (q : Queue Ptr) → t.pqueue ≡ q → Fetched h t (pop_primary t)
    unfolding pop_primary queue_pop_head queued count
    pop_primary-Fetched [] e = rw e (Sound-queues s (ground arith) (λ a. rw e refl) refl refl refl)
    pop_primary-Fetched (p ∷ rest) e =
        let (x, at) = queued-live p (rw e (ground arith)) in
        rw e (
          Sound-queues s (ground arith) (λ a. rw e (omega arith)) refl refl refl,
          tt,
          (x, at, (refl, refl)),
        )

    pop_secondary-Fetched :
        (i : ℕ) (q : Queue Ptr) → i < t.sqs → t.squeue i ≡ q → Fetched h t (pop_secondary i t)
    unfolding pop_secondary queue_pop_head queued count
    pop_secondary-Fetched i [] lt e = rw e (
        Sound-queues s (ground arith)
          (λ a. omega (arith, total-update (count a) t.sqs t.squeue i [] lt, ap (count a) e)) refl
          refl refl)
    pop_secondary-Fetched i (p ∷ rest) lt e =
        let (x, at) =
          queued-live p (ground (arith, total-ge (count p) t.sqs t.squeue i lt, ap (count p) e)) in
        rw e (
          Sound-queues s (ground arith)
              (λ a. omega (arith, total-update (count a) t.sqs t.squeue i rest lt, ap (count a) e))
              refl refl refl,
          lt,
          (x, at, (ground (arith, e), refl)),
        )

    steal-Fetched : (rounds i : ℕ) → rounds + i ≡ t.sqs → Fetched h t (steal rounds i t)
    unfolding steal
    steal-Fetched zero i e = s
    steal-Fetched (suc rounds) i e = elim (Queue-cases (t.squeue i)) [
      | inl empty ↦ rw (empty, steal) (steal-Fetched rounds (suc i) (omega arith))
      | inr (p, rest, front, full) ↦
          rw (front, steal) (pop_secondary-Fetched i (p ∷ rest) (omega arith) full)
    ]

    -- Fetching from a sound memory gives nothing and keeps the memory sound, or gives a
    -- live task, with the queue of the board that it was at the front of and that has the
    -- rest left, the primary or the secondary queues as they were, and a memory that is
    -- sound with this task in hand. Conditions: no task in debt, and the executor is the
    -- primary one or its queue exists.
    pub fetch-Fetched : (args : Exec) → IsExec t.sqs args → Fetched h t (fetch args t)
    unfolding fetch
    fetch-Fetched args ok = elim (Bool-cases (eq_ℤ args.type primary_exec)) [
      | inl mine ↦ elim (Queue-cases t.pqueue) [
        | inl empty ↦ rw (mine, empty, fetch) (steal-Fetched t.sqs 0 (omega arith))
        | inr (p, rest, front, full) ↦ rw (mine, front, fetch) (pop_primary-Fetched (p ∷ rest) full)
      ]
      | inr other ↦ rw other (pop_secondary-Fetched args.num (t.squeue args.num) (ok other) refl)
    ]
