-- ===== src/Coroutines/Likes.antt =====
-- Operations that change no context, no request and no coroutine.
use jam_tboard.Common.{
  suc, ◌≡◌, ◌≤◌, refl, Option, none, some, update, arith, ◌==◌, if◌then◌else◌, Bool-cases,
  Option-cases, inl, inr,
}
use jam_tboard.Task.{Ptr, Task, RemoteTask, task_completed}
use jam_tboard.Env.{Env}
use jam_tboard.Board.{
  History, Board, M, and_then, pure, ◌>>=◌, ◌>>◌, expect, load_task, store_task, free_task,
  load_remote, store_remote, free_remote, load_hist, store_hist, alloc_hist,
}
use jam_tboard.History.{add_entry, history_record_exec, count_execution, completed_entry}
use jam_tboard.Ownership.Memory.{write_task, write_remote}
use jam_tboard.Ownership.Record.{there_after}
use jam_tboard.Ownership.Only.{Only, faults, only, Only-bind}
use jam_tboard.Coroutines.Frame.{context, request, Alike, Alike-trans}

module _ {env : Env} where
  pub Only-mono :
      {A : Type 0} {P Q : A → Board env → Type 0} {r : Option (A × Board env)}
      → Only P r
      → ((a : A) (u : Board env) → P a u → Q a u)
      → Only Q r
  Only-mono faults weaken = faults
  Only-mono (only p) weaken = only (weaken _ _ p)

  pub Alike-refl : (t : Board env) → Alike t t
  Alike-refl t = record {
    tasks = λ a. refl;
    remotes = λ r. refl;
    hists = λ a d e. (d, e);
    next = omega arith;
    coros = refl;
  }

  -- What an access to an object gives, if it does not fault.
  pub expect-Only :
      {A : Type 0} (o : Option A) (t : Board env)
      → Only (λ a u. (o ≡ some a) × (u ≡ t)) (expect o t)
  expect-Only none t = faults
  expect-Only (some a) t = only (refl, refl)

  guarded :
      {A : Type 0} (o : Option A) (u : Board env)
      → Only
          (λ (_ : Unit {0}) w. ((a : A) × (o ≡ some a)) × (w ≡ u))
          (elim o [ none ↦ none | some _ ↦ some (tt, u) ])
  guarded none u = faults
  guarded (some a) u = only ((a, refl), refl)

  pub load_task-Only :
      (p : Ptr) (t : Board env) → Only (λ x u. (t.tasks p ≡ some x) × (u ≡ t)) (load_task p t)
  unfolding load_task
  load_task-Only p t = expect-Only (t.tasks p) t

  pub store_task-Only :
      (p : Ptr) (x : Task) (t : Board env)
      → Only
          (λ _ u. ((y : Task) × (t.tasks p ≡ some y)) × (u ≡ write_task t p (some x)))
          (store_task p x t)
  unfolding store_task
  store_task-Only p x t = guarded (t.tasks p) _

  pub free_task-Only :
      (p : Ptr) (t : Board env)
      → Only
          (λ _ u. ((y : Task) × (t.tasks p ≡ some y)) × (u ≡ write_task t p none))
          (free_task p t)
  unfolding free_task
  free_task-Only p t = guarded (t.tasks p) _

  pub load_remote-Only :
      (r : Ptr) (t : Board env) → Only (λ x u. (t.remotes r ≡ some x) × (u ≡ t)) (load_remote r t)
  unfolding load_remote
  load_remote-Only r t = expect-Only (t.remotes r) t

  pub free_remote-Only :
      (r : Ptr) (t : Board env)
      → Only
          (λ _ u. ((y : RemoteTask) × (t.remotes r ≡ some y)) × (u ≡ write_remote t r none))
          (free_remote r t)
  unfolding free_remote
  free_remote-Only r t = guarded (t.remotes r) _

  abbrev pub Likes : {A : Type 0} → Board env → Option (A × Board env) → Type 0
  Likes t r = Only (λ _ u. Alike t u) r

  pub Likes-bind :
      {A B : Type 0} {t : Board env} {r : Option (A × Board env)} {k : A → M env B}
      → Likes t r
      → ((a : A) (u : Board env) → Likes u (k a u))
      → Likes t (and_then r k)
  Likes-bind one next = Only-bind one λ a u m. Only-mono (next a u) λ b v n. Alike-trans m n

  pub Likes-after :
      {A B : Type 0} {t : Board env} {r : Option (A × Board env)} {k : A → M env B}
      → Likes t r
      → ((a : A) (u : Board env) → Alike t u → Likes u (k a u))
      → Likes t (and_then r k)
  Likes-after one next = Only-bind one λ a u m. Only-mono (next a u m) λ b v n. Alike-trans m n

  -- The new object has the same context and parent.
  pub rewrite_task :
      (p : Ptr) (y : Task) (t : Board env)
      → context (some y) ≡ context (t.tasks p)
      → Likes t (store_task p y t)
  rewrite_task p y t same = Only-mono (store_task-Only p y t) λ _ u (_, is). rw is (record {
    tasks = λ a. elim (Bool-cases (p == a)) [
      | inl here ↦ let at : p ≡ a = ground arith in rw (here, ← at) same
      | inr other ↦ rw other refl
    ];
    remotes = λ r. refl;
    hists = λ a d e. (d, e);
    next = omega arith;
    coros = refl;
  })

  pub rewrite_remote :
      (r : Ptr) (y : RemoteTask) (t : Board env)
      → request (some y) ≡ request (t.remotes r)
      → Likes t (store_remote r y t)
  unfolding store_remote
  rewrite_remote r y t same = Only-mono (guarded (t.remotes r) _) λ _ u (_, is). rw is (record {
    tasks = λ a. refl;
    remotes = λ q. elim (Bool-cases (r == q)) [
      | inl here ↦ let at : r ≡ q = ground arith in rw (here, ← at) same
      | inr other ↦ rw other refl
    ];
    hists = λ a d e. (d, e);
    next = omega arith;
    coros = refl;
  })

  pub load_hist-Likes : (h : Ptr) (t : Board env) → Likes t (load_hist h t)
  unfolding load_hist
  load_hist-Likes h t = Only-mono (expect-Only (t.hists h) t) λ a u (_, is). rw is (Alike-refl t)

  grown :
      (t : Board env) (h n : Ptr) (x : History env) (T : env.Table)
      → t.next ≤ n
      → Alike t (record t { hists = update t.hists h (some x); next = n; exec_hist = T })
  grown t h n x T le = record {
    tasks = λ a. refl;
    remotes = λ r. refl;
    hists = λ a d e. there_after t h x a d e;
    next = le;
    coros = refl;
  }

  pub store_hist-Likes : (h : Ptr) (x : History env) (t : Board env) → Likes t (store_hist h x t)
  unfolding store_hist
  store_hist-Likes h x t =
      Only-mono (guarded (t.hists h) _)
        λ _ u (_, is). rw is (grown t h t.next x t.exec_hist (omega arith))

  complete-Likes :
      (task : Task) (h : Ptr) (t : Board env)
      → Likes t (
          (if task.status == task_completed
              then (do e ← load_hist h; store_hist h (completed_entry e task); pure h)
              else pure h)
            t)
  complete-Likes task h t = elim (Bool-cases (task.status == task_completed)) [
    | inl e ↦ rw e (
        Likes-bind (load_hist-Likes h t)
          λ d u. Likes-bind (store_hist-Likes h _ u) λ _ v. only (Alike-refl v))
    | inr e ↦ rw e (only (Alike-refl t))
  ]

  pub history_record_exec-Likes :
      (task : Task) (t : Board env) → Likes t (history_record_exec task t)
  unfolding history_record_exec add_entry alloc_hist
  history_record_exec-Likes task t =
      elim (Option-cases (env.hash_find_str t.exec_hist task.fn.fn_name)) [
        | inl new ↦ rw new (
            Only-mono (complete-Likes task t.next _)
              λ _ u n. Alike-trans (grown t t.next (suc t.next) _ _ (omega arith)) n)
        | inr (h, known) ↦ rw known (complete-Likes task h t)
      ]

  pub count_execution-Likes : (h : Ptr) (t : Board env) → Likes t (count_execution h t)
  unfolding count_execution
  count_execution-Likes h t = Likes-bind (load_hist-Likes h t) λ e u. store_hist-Likes h _ u
