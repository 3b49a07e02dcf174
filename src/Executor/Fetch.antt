-- ===== src/Executor/Fetch.antt =====
-- How `executor` of src/executor.c takes the next task from the ready queues.
use jam_tboard.Common.{ℕ, zero, suc, Option, none, some, ℤ, eq_ℤ, update, if◌then◌else◌}
use jam_tboard.Task.{Ptr, primary_exec}
use jam_tboard.Env.{Env}
use jam_tboard.Queue.{queue_peek_front, queue_pop_head}
use jam_tboard.Board.{Board}

-- `exec_t`: which executor it is.
pub record Exec : Type 0 where
  pub type : ℤ
  pub num : ℕ

-- The queue that a task was taken from, with its mutex and condition variable.
pub data Slot : Type 0 where
  primary : Slot
  secondary : ℕ → Slot

abbrev pub at_slot : Slot → Option Ptr → Option (Ptr × Slot)
at_slot slot none = none
at_slot slot (some p) = some (p, slot)

module _ {env : Env} where
  unfoldable pub pop_primary : Board env → Option (Ptr × Slot) × Board env
  pop_primary t =
      let (next, rest) = queue_pop_head t.pqueue in
      (at_slot primary next, record t { pqueue = rest })

  unfoldable pub pop_secondary : ℕ → Board env → Option (Ptr × Slot) × Board env
  pop_secondary i t =
      let (next, rest) = queue_pop_head (t.squeue i) in
      (at_slot (secondary i) next, record t { squeue = update t.squeue i rest })

  -- The search of the secondary queues from the i-th on, `rounds` of them.
  unfoldable pub steal : (rounds i : ℕ) → Board env → Option (Ptr × Slot) × Board env
  steal zero i t = (none, t)
  steal (suc rounds) i t = elim (queue_peek_front (t.squeue i)) [
    | none ↦ steal rounds (suc i) t
    | some _ ↦ pop_secondary i t
  ]

  unfoldable pub fetch : Exec → Board env → Option (Ptr × Slot) × Board env
  fetch args t =
      if eq_ℤ args.type primary_exec
      then (elim (queue_peek_front t.pqueue) [ none ↦ steal t.sqs 0 t | some _ ↦ pop_primary t ])
      else pop_secondary args.num t
