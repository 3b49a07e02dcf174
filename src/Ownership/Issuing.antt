-- ===== src/Ownership/Issuing.antt =====
-- What `blocking_task_create` and `remote_task_create` of src/tboard.c leave for the executor, and
-- what they return when they are resumed.
use mathlib.Core.Path.{subst}
use jam_tboard.Common.{
  ℕ, ◌≡◌, refl, ◌∙◌, Option, some, Bool, true, arith, ◌==◌, inl, inr, Option-cases, ℤ,
}
use jam_tboard.Task.{
  Ptr, Function, Task, RemoteTask, task_bytes, remote_bytes, task_completed, task_id_blocking,
}
use jam_tboard.Env.{Env}
use jam_tboard.Env.Laws.{HashLaws, CoroLaws}
use jam_tboard.Board.{Board, signal, and_then, load_task, load_remote}
use jam_tboard.Create.{new_task, create_context}
use jam_tboard.Place.{place, place_primary, place_secondary, task_place}
use jam_tboard.Executor.{wake_parent}
use jam_tboard.Sequencer.{return_remote, push_remote}
use jam_tboard.Issue.{push, push_context, blocking_issue, blocking_result, remote_result}
use jam_tboard.Ownership.Defs.{
  Held, Sound, HasRoom, IsRecorded, Returns, returns, Returns-bind, Returns-mono,
}
use jam_tboard.Ownership.Frame.{coros-Sound}
use jam_tboard.Ownership.Record.{history_record_exec-Returns, count_execution-Returns}

module _ {env : Env} where
  -- What a task that has issued a blocking task has in its storage.
  pub record Issued (c : Ptr) (t : Board env) : Type 0 where
    pub as_task : env.mco_get_bytes_stored c t.coros ≡ env.sizeof_task
    pub recorded :
        (y : Task) (k : env.Coros) → env.mco_pop_task c t.coros ≡ some (y, k) → IsRecorded t y

  abbrev pub AfterIssue : Held → Ptr → Board env → Bool → Board env → Type 0
  AfterIssue h c t issued u =
      Sound h u × (u.tasks ≡ t.tasks) × (u.sqs ≡ t.sqs) × (issued ≡ true → Issued c u)

  push-Issued :
      CoroLaws env
      → {h : Held} {t : Board env} (c : Ptr) (x : Task) → env.mco_get_bytes_stored c t.coros ≡ 0
      → Sound h t
      → IsRecorded t x
      → Returns (AfterIssue h c t) (push c (task_bytes x) t)
  unfolding push
  push-Issued laws {h} {t} c x empty s known =
      elim (Option-cases (env.mco_push c (task_bytes x) t.coros)) [
        | inl e ↦ rw (e, push) (returns (s, refl, refl, λ e. absurd (cc)))
        | inr (k, e) ↦
            let (size, (k', popped)) = laws.pushed_task c x t.coros k empty e in
            rw (e, push)
              (returns (
                coros-Sound k s,
                refl,
                refl,
                λ _. record {
                  as_task = size;
                  recorded =
                      λ y k'' pop. let is : x ≡ y = cc in subst (λ z. IsRecorded t z) is known;
                },
              ))
      ]

  push_context-Issued :
      CoroLaws env
      → {h : Held} {t : Board env} (c : Ptr) (x : Task) → env.mco_get_bytes_stored c t.coros ≡ 0
      → Sound h t
      → IsRecorded t x
      → Returns (AfterIssue h c t) (and_then (create_context x.desc t) (push_context c x))
  unfolding create_context push_context
  push_context-Issued laws {h} {t} c x empty s known =
      elim (Option-cases (env.mco_create x.desc t.coros)) [
        | inl e ↦ rw (e, create_context) (returns (s, refl, refl, λ e. absurd (cc)))
        | inr ((p, k), e) ↦
            rw (e, create_context)
              (push-Issued laws c (record x { ctx = p })
                (laws.create_empty c p x.desc t.coros k e empty) (coros-Sound k s) known)
      ]

  -- Up to its yield, blocking_task_create in a coroutine returns without a fault and keeps
  -- the memory sound, the tasks and the number of secondary queues as they were; where it
  -- goes on to yield, the coroutine has stored as many bytes as a task object has, and a task
  -- object that is popped from it has its history entry. Conditions: the laws of the
  -- coroutine library and the hash table, the memory is sound before, and the coroutine's
  -- storage is empty.
  pub blocking_issue-Returns :
      HashLaws env
      → CoroLaws env
      → {h : Held} {t : Board env} (c : Ptr) (fn : Function) (type : ℤ) (args : Option Ptr)
        (size : ℕ)
      → env.mco_get_bytes_stored c t.coros ≡ 0
      → Sound h t
      → Returns (AfterIssue h c t) (blocking_issue (some c) fn type args size t)
  unfolding blocking_issue
  blocking_issue-Returns hash laws {h} {t} c fn type args size empty s =
      let x : Task = new_task env task_id_blocking type fn args size in
      Returns-bind (history_record_exec-Returns hash s x) λ e u (s1, same1, entry).
        Returns-bind (count_execution-Returns s1 entry.1) λ _ v (s2, same2).
          Returns-mono
            (push_context-Issued laws c (record x { hist = some e })
              (rw (same2.coros, same1.coros) empty) s2
              (let (d, there) = same2.kept e entry.0 entry.1 in (e, d, refl, there)))
            λ issued w (s3, tasks, sqs, stored).
              (s3, tasks ∙ same2.tasks ∙ same1.tasks, sqs ∙ same2.sqs ∙ same1.sqs, stored)

  place-coros : (type : ℤ) (p : Ptr) (t : Board env) → (place type p t).coros ≡ t.coros
  unfolding place place_primary place_secondary signal
  place-coros type p t = ground arith

  stored-blocking_result :
      (c : Ptr) (x : Task) (k : env.Coros) (t : Board env)
      → env.mco_get_bytes_stored c t.coros ≡ env.sizeof_task
      → env.mco_pop_task c t.coros ≡ some (x, k)
      → x.status ≡ task_completed
      → Returns (λ done _. done ≡ true) (blocking_result c t)
  unfolding blocking_result
  stored-blocking_result c x k t size popped done =
      let same : (env.sizeof_task == env.sizeof_task) ≡ true = ground arith in
      rw (size, same, popped, done) (returns refl)

  stored-remote_result :
      (c : Ptr) (r : RemoteTask) (k : env.Coros) (t : Board env)
      → env.mco_get_bytes_stored c t.coros ≡ env.sizeof_remote_task
      → env.mco_pop_remote c t.coros ≡ some (r, k)
      → r.status ≡ task_completed
      → Returns (λ done _. done ≡ true) (remote_result c true t)
  unfolding remote_result
  stored-remote_result c r k t size popped done =
      let same : (env.sizeof_remote_task == env.sizeof_remote_task) ≡ true = ground arith in
      rw (size, same, popped, done) (returns refl)

  -- Waking the parent of a completed blocking task returns without a fault, and on the board
  -- that it leaves, what blocking_task_create returns to the parent is true. Conditions: the
  -- laws of the coroutine library; the parent is live and its coroutine's storage is empty
  -- with room for a struct.
  pub wake_parent-result :
      CoroLaws env
      → (t : Board env) (q : Ptr) (y x : Task) → t.tasks q ≡ some y
      → HasRoom t y
      → x.status ≡ task_completed
      → Returns
          (λ _ u. Returns (λ done _. done ≡ true) (blocking_result y.ctx u))
          (wake_parent q x t)
  unfolding wake_parent load_task task_place
  wake_parent-result laws t q y x at (empty, room) done =
      let (k, pushed) = room (task_bytes x) in
      let (size, (k', popped)) = laws.pushed_task y.ctx x t.coros k empty pushed in
      let same = place-coros y.type q (record t { coros = k }) in
      rw (at, pushed, at)
        (returns (stored-blocking_result y.ctx x k' _ (rw same size) (rw same popped) done))

  -- Handing a completed remote task back to its caller returns without a fault, and on the
  -- board that it leaves, what remote_task_create returns for a blocking remote task is true.
  -- Conditions: the laws of the coroutine library; the remote task and its caller are live
  -- and the storage of the caller's coroutine is empty with room for a struct.
  pub return_remote-result :
      CoroLaws env
      → (t : Board env) (q r : Ptr) (y : Task) (x : RemoteTask) → t.tasks q ≡ some y
      → t.remotes r ≡ some x
      → HasRoom t y
      → x.status ≡ task_completed
      → Returns
          (λ _ u. Returns (λ done _. done ≡ true) (remote_result y.ctx true u))
          (return_remote q r t)
  unfolding return_remote push_remote load_task load_remote task_place
  return_remote-result laws t q r y x at there (empty, room) done =
      let (k, pushed) = room (remote_bytes x) in
      let (size, (k', popped)) = laws.pushed_remote y.ctx x t.coros k empty pushed in
      let same = place-coros y.type q (record t { coros = k }) in
      rw (at, there, pushed, at)
        (returns (stored-remote_result y.ctx x k' _ (rw same size) (rw same popped) done))
