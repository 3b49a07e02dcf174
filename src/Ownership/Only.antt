-- ===== src/Ownership/Only.antt =====
-- What the operations on tasks return, apart from whether they fault: that the board has room, or
-- has not, decides it.
use jam_tboard.Common.{
  ℕ, suc, ◌<◌, ◌≤◌, ◌≡◌, refl, inl, inr, true, false, Option, none, some, ℤ, eq_ℤ, pos, arith,
  Option-cases,
}
use jam_tboard.Task.{Ptr, Function, Desc, Task, max_tasks, task_initialized, task_id_nonblocking}
use jam_tboard.Env.{Env}
use jam_tboard.Board.{Board, M, and_then, load_task, store_task, alloc_task, free_task}
use jam_tboard.Counter.Bounds.{add_concurrent_cases}
use jam_tboard.Create.{
  new_task, create_context, enter_task, task_add, discard_task, start_task, task_create,
}
use jam_tboard.History.{history_record_exec, count_execution}
use jam_tboard.Place.{task_place}
use jam_tboard.Ownership.Defs.{Returns, returns}

module _ {env : Env} where
  -- A run whose result, if it has one, has a property.
  pub data Only {A : Type 0} (P : A → Board env → Type 0) : Option (A × Board env) → Type 0 where
    faults : Only P none
    only : {a : A} {u : Board env} → P a u → Only P (some (a, u))

  module _ {A : Type 0} {P : A → Board env → Type 0} where
    pub Only-bind :
        {B : Type 0} {Q : B → Board env → Type 0} {r : Option (A × Board env)} {k : A → M env B}
        → Only P r
        → ((a : A) (u : Board env) → P a u → Only Q (k a u))
        → Only Q (and_then r k)
    Only-bind faults next = faults
    Only-bind (only p) next = next _ _ p

  pub anything : {A : Type 0} (r : Option (A × Board env)) → Only (λ _ _. Unit {0}) r
  anything none = faults
  anything (some (a, u)) = only tt

  -- Whatever `enter_task` does before, it returns true.
  pub enter_task-true : (p : Ptr) (t : Board env) → Only (λ added _. added ≡ true) (enter_task p t)
  unfolding enter_task
  enter_task-true p t = Only-bind (anything (load_task p t)) λ task u1 _.
      Only-bind
        (anything (
          store_task p
            (record task { cpu_time = 0; yields = 0; status = task_initialized; hist = none }) u1))
        λ _ u2 _. Only-bind (anything (load_task p u2)) λ fresh u3 _.
          Only-bind (anything (history_record_exec fresh u3)) λ h u4 _.
            Only-bind (anything (store_task p (record fresh { hist = some h }) u4)) λ _ u5 _.
              Only-bind (anything (count_execution h u5))
                λ _ u6 _. Only-bind (anything (task_place p u6)) λ _ u7 _. only refl

  -- As long as the count is as before, there is room.
  abbrev pub Room : ℕ → {A : Type 0} → A → Board env → Type 0
  Room n a u = u.task_count ≡ pos n

  pub load_task-Room :
      (n : ℕ) (p : Ptr) (t : Board env) → t.task_count ≡ pos n → Only (Room n) (load_task p t)
  unfolding load_task
  load_task-Room n p t e = elim (Option-cases (t.tasks p)) [
    | inl at ↦ rw (at, load_task) faults
    | inr (x, at) ↦ rw at (only e)
  ]

  pub store_task-Room :
      (n : ℕ) (p : Ptr) (x : Task) (t : Board env)
      → t.task_count ≡ pos n
      → Only (Room n) (store_task p x t)
  unfolding store_task
  store_task-Room n p x t e = elim (Option-cases (t.tasks p)) [
    | inl at ↦ rw (at, store_task) faults
    | inr (y, at) ↦ rw (at, store_task) (only e)
  ]

  pub create_context-Room :
      (n : ℕ) (desc : Desc) (t : Board env)
      → t.task_count ≡ pos n
      → Only (Room n) (create_context desc t)
  unfolding create_context
  create_context-Room n desc t e = elim (Option-cases (env.mco_create desc t.coros)) [
    | inl failed ↦ rw (failed, create_context) (only e)
    | inr (c, made) ↦ rw (made, create_context) (only e)
  ]

  pub task_add-true :
      (n : ℕ) (p : Ptr) (t : Board env)
      → t.task_count ≡ pos n
      → n < max_tasks
      → Only (λ added _. added ≡ true) (task_add (some p) t)
  unfolding task_add
  task_add-true n p t c lt = elim (add_concurrent_cases t n c) [
    | inl (below, e) ↦
        let full : eq_ℤ (pos (suc n)) (pos 0) ≡ false = ground arith in
        rw (e, full) (enter_task-true p _)
    | inr (ge, e) ↦ absurd (omega arith)
  ]

  task_add-false :
      (n : ℕ) (p : Ptr) (t : Board env)
      → t.task_count ≡ pos n
      → max_tasks ≤ n
      → Only (λ added _. added ≡ false) (task_add (some p) t)
  unfolding task_add
  task_add-false n p t c ge = elim (add_concurrent_cases t n c) [
    | inl (below, e) ↦ absurd (omega arith)
    | inr (full, e) ↦ rw e (only refl)
  ]

  start_task-false :
      (n : ℕ) (p : Ptr) (res : Option Ptr) (t : Board env)
      → t.task_count ≡ pos n
      → max_tasks ≤ n
      → Only (λ added _. added ≡ false) (start_task p res t)
  unfolding start_task discard_task
  start_task-false n p none t c ge = Only-bind (anything (free_task p t)) λ _ u _. only refl
  start_task-false n p (some k) t c ge = Only-bind (load_task-Room n p t c) λ task u1 c1.
      Only-bind (store_task-Room n p (record task { ctx = k }) u1 c1) λ _ u2 c2.
        Only-bind (task_add-false n p u2 c2 ge)
          λ added u3 e. rw e (Only-bind (anything (free_task p _)) λ _ u4 _. only refl)

  -- A full board takes no task.
  pub task_create-false :
      (n : ℕ) (fn : Function) (type : ℤ) (args : Option Ptr) (size : ℕ) (t : Board env)
      → t.task_count ≡ pos n
      → max_tasks ≤ n
      → Only (λ added _. added ≡ false) (task_create fn type args size t)
  unfolding task_create alloc_task
  task_create-false n fn type args size t c ge =
      Only-bind {P = Room n}
        (create_context-Room n (new_task env task_id_nonblocking type fn args size).desc _ c)
        λ res u d. start_task-false n t.next res u d ge

  pub Returns-Only :
      {A : Type 0} {P Q : A → Board env → Type 0} {r : Option (A × Board env)}
      → Returns P r
      → Only Q r
      → Returns (λ a u. P a u × Q a u) r
  Returns-Only (returns p) (only q) = returns (p, q)
