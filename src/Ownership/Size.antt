-- ===== src/Ownership/Size.antt =====
-- No operation of the task board, its executors and its controller changes the number of secondary
-- queues.
pub mod Operations
use jam_tboard.Common.{
  ℕ, ◌≡◌, refl, Bool, true, false, Option, none, some, ℤ, pos, eq_ℤ, arith, ◌==◌, ◌||◌, leb_ℤ, ◌%◌,
  if◌then◌else◌, Option-cases, ◌∙◌, inl, inr,
}
use jam_tboard.Task.{
  Ptr, Function, Desc, Task, RemoteTask, CoroState, dead, normal, running, suspended, primary_exec,
}
use jam_tboard.Env.{Env}
use jam_tboard.Queue.{Queue}
use jam_tboard.Board.{
  History, Board, M, and_then, expect, load_task, store_task, alloc_task, free_task, load_remote,
  store_remote, alloc_remote, free_remote, load_hist, store_hist, alloc_hist, free_data, signal,
}
use jam_tboard.Board.{pure, ◌>>=◌, ◌>>◌}
use jam_tboard.Task.{task_completed}
use jam_tboard.Destroy.{free_sized}
use jam_tboard.Place.{place, task_place, remote_task_place}
use jam_tboard.History.{add_entry, history_record_exec, count_execution, completed_entry}
use jam_tboard.Ownership.Frame.{place-SameMemory}
use jam_tboard.Ownership.Only.{Only, faults, only, Only-bind}

module _ {env : Env} where
  abbrev pub Sized : ℕ → {A : Type 0} → A → Board env → Type 0
  Sized n a u = u.sqs ≡ n

  -- Runs that do not change it.
  abbrev pub Keeps : {A : Type 0} → M env A → Type 0
  Keeps m = (n : ℕ) (t : Board env) → t.sqs ≡ n → Only (Sized n) (m t)

  guarded :
      {A B : Type 0} {n : ℕ} (o : Option A) (b : B) (u : Board env)
      → u.sqs ≡ n
      → Only {A = B} (Sized n) (elim o [ none ↦ none | some _ ↦ some (b, u) ])
  guarded none b u e = faults
  guarded (some a) b u e = only e

  pub expect-Keeps : {A : Type 0} (o : Option A) → Keeps (expect o)
  expect-Keeps none n t e = faults
  expect-Keeps (some a) n t e = only e

  pub load_task-Keeps : (p : Ptr) → Keeps (load_task p)
  unfolding load_task
  load_task-Keeps p n t e = expect-Keeps (t.tasks p) n t e

  pub Keeps-bind :
      {A B : Type 0} {m : M env A} {k : A → M env B}
      → Keeps m
      → ((a : A) → Keeps (k a))
      → Keeps (λ t. and_then (m t) k)
  Keeps-bind one next n t e = Only-bind (one n t e) λ a u e'. next a n u e'

  pub Keeps-if :
      {A : Type 0} (b : Bool) {m k : M env A} → Keeps m → Keeps k → Keeps (if b then m else k)
  Keeps-if true one two = one
  Keeps-if false one two = two

  pub Keeps-pure : {A : Type 0} (a : A) → Keeps (λ t. some (a, t))
  Keeps-pure a n t e = only e

  pub Keeps-modify :
      (f : Board env → Board env)
      → ((t : Board env) → (f t).sqs ≡ t.sqs)
      → Keeps (λ t. some (tt, f t))
  Keeps-modify f same n t e = only (same t ∙ e)

  pub store_task-Keeps : (p : Ptr) (x : Task) → Keeps (store_task p x)
  unfolding store_task
  store_task-Keeps p x n t e = guarded (t.tasks p) tt _ e

  pub free_task-Keeps : (p : Ptr) → Keeps (free_task p)
  unfolding free_task
  free_task-Keeps p n t e = guarded (t.tasks p) tt _ e

  pub alloc_task-Keeps : (x : Task) → Keeps (alloc_task x)
  unfolding alloc_task
  alloc_task-Keeps x n t e = only e

  pub load_remote-Keeps : (r : Ptr) → Keeps (load_remote r)
  unfolding load_remote
  load_remote-Keeps r n t e = expect-Keeps (t.remotes r) n t e

  pub store_remote-Keeps : (r : Ptr) (x : RemoteTask) → Keeps (store_remote r x)
  unfolding store_remote
  store_remote-Keeps r x n t e = guarded (t.remotes r) tt _ e

  pub free_remote-Keeps : (r : Ptr) → Keeps (free_remote r)
  unfolding free_remote
  free_remote-Keeps r n t e = guarded (t.remotes r) tt _ e

  pub alloc_remote-Keeps : (x : RemoteTask) → Keeps (alloc_remote x)
  unfolding alloc_remote
  alloc_remote-Keeps x n t e = only e

  pub load_hist-Keeps : (h : Ptr) → Keeps (load_hist h)
  unfolding load_hist
  load_hist-Keeps h n t e = expect-Keeps (t.hists h) n t e

  pub store_hist-Keeps : (h : Ptr) (x : History env) → Keeps (store_hist h x)
  unfolding store_hist
  store_hist-Keeps h x n t e = guarded (t.hists h) tt _ e

  pub free_sized-same :
      (size : ℕ) (d : Option Ptr) (t : Board env) → (free_sized size d t).sqs ≡ t.sqs
  unfolding free_sized free_data
  free_sized-same size d t = ground arith

  place-same : (type : ℤ) (p : Ptr) (t : Board env) → (place type p t).sqs ≡ t.sqs
  place-same type p t = (place-SameMemory type p t).sqs

  pub task_place-Keeps : (p : Ptr) → Keeps (task_place p)
  unfolding task_place
  task_place-Keeps p =
      Keeps-bind (load_task-Keeps p)
        λ task. Keeps-modify (place task.type p) (place-same task.type p)

  pub remote_task_place-Keeps : (r : Option Ptr) (send : Bool) → Keeps (remote_task_place r send)
  unfolding remote_task_place signal
  remote_task_place-Keeps none send = Keeps-pure tt
  remote_task_place-Keeps (some r) send = Keeps-modify _ (λ t. ground arith)

  complete-Keeps :
      (task : Task) (h : Ptr)
      → Keeps (
          if task.status == task_completed
          then (do e ← load_hist h; store_hist h (completed_entry e task); pure h)
          else pure h)
  complete-Keeps task h =
      Keeps-if (task.status == task_completed)
        (Keeps-bind (load_hist-Keeps h) λ e. Keeps-bind (store_hist-Keeps h _) λ _. Keeps-pure h)
        (Keeps-pure h)

  pub history_record_exec-Keeps : (task : Task) → Keeps (history_record_exec task)
  unfolding history_record_exec add_entry alloc_hist
  history_record_exec-Keeps task n t e =
      elim (Option-cases (env.hash_find_str t.exec_hist task.fn.fn_name)) [
        | inl new ↦ rw new (complete-Keeps task t.next n _ e)
        | inr (h, known) ↦ rw known (complete-Keeps task h n t e)
      ]

  pub count_execution-Keeps : (h : Ptr) → Keeps (count_execution h)
  unfolding count_execution
  count_execution-Keeps h = Keeps-bind (load_hist-Keeps h) λ e. store_hist-Keeps h _
