-- ===== src/Ownership/Size/Operations.antt =====
-- The operations that create, issue, end and answer tasks keep the number of secondary queues.
use jam_tboard.Common.{
  ℕ, ◌≡◌, refl, ◌∙◌, true, false, Option, none, some, ℤ, pos, eq_ℤ, arith, ◌==◌, Option-cases, [],
  ◌∷◌, inl, inr, Bytes, bytes_eq, codes,
}
use jam_tboard.Task.{
  task_completed, task_bytes, Ptr, Function, Desc, Task, RemoteTask, CoroState, dead, normal,
  running, suspended, primary_exec,
}
use jam_tboard.Env.{Env}
use jam_tboard.Tokens.{strtok}
use jam_tboard.Queue.{Queue, stailq_remove_head, queue_peek_front, queue_pop_head}
use jam_tboard.Board.{expect, pure, ◌>>=◌, ◌>>◌, store_remote, Board, signal}
use jam_tboard.Counter.{tboard_add_concurrent, tboard_deinc_concurrent}
use jam_tboard.Create.{
  create_context, destroy_context, enter_task, task_add, discard_task, start_task, task_create,
}
use jam_tboard.Place.{remote_task_place}
use jam_tboard.Destroy.{release_task}
use jam_tboard.Processor.{
  Msg, task_exec, task_schedule, exec_message, msg_processor, bid_processing,
}
use jam_tboard.Controller.{answer, mqtt_issue_remote_task, othread_section, mqtt_othread}
use jam_tboard.Executor.Fetch.{Exec, Slot, primary, secondary}
use jam_tboard.Executor.{
  on_coros, count_yield, reinsert_at, reinsert, issue_local, issue_remote, after_yield, on_yield,
  wake_parent, leave, on_dead, after_resume, finish,
}
use jam_tboard.Ownership.Only.{Only, faults, only}
use jam_tboard.Ownership.Size.{
  Sized, Keeps, Keeps-bind, Keeps-if, Keeps-pure, expect-Keeps, load_task-Keeps, store_task-Keeps,
  free_task-Keeps, alloc_task-Keeps, load_remote-Keeps, store_remote-Keeps, alloc_remote-Keeps,
  load_hist-Keeps, store_hist-Keeps, free_sized-same, task_place-Keeps, remote_task_place-Keeps,
  history_record_exec-Keeps, count_execution-Keeps,
}

module _ {env : Env} where
  release_task-Keeps : (p : Ptr) (x : Task) → Keeps {env = env} (release_task p x)
  unfolding release_task destroy_context
  release_task-Keeps p x n t e =
      free_task-Keeps p n _ (free_sized-same x.data_size x.desc.user_data t ∙ e)

  create_context-Keeps : (desc : Desc) → Keeps {env = env} (create_context desc)
  unfolding create_context
  create_context-Keeps desc n t e = elim (Option-cases (env.mco_create desc t.coros)) [
    | inl failed ↦ rw (failed, create_context) (only e)
    | inr (c, made) ↦ rw (made, create_context) (only e)
  ]

  enter_task-Keeps : (p : Ptr) → Keeps {env = env} (enter_task p)
  unfolding enter_task
  enter_task-Keeps p = Keeps-bind (load_task-Keeps p) λ task. Keeps-bind (store_task-Keeps p _) λ _.
      Keeps-bind (load_task-Keeps p) λ fresh. Keeps-bind (history_record_exec-Keeps fresh) λ h.
        Keeps-bind (store_task-Keeps p _) λ _.
          Keeps-bind (count_execution-Keeps h)
            λ _. Keeps-bind (task_place-Keeps p) λ _. Keeps-pure true

  add_concurrent-same : (t : Board env) → (tboard_add_concurrent t).1.sqs ≡ t.sqs
  unfolding tboard_add_concurrent
  add_concurrent-same t = ground arith

  task_add-Keeps : (p : Option Ptr) → Keeps {env = env} (task_add p)
  unfolding task_add
  task_add-Keeps none n t e = only e
  task_add-Keeps (some p) n t e =
      Keeps-if (eq_ℤ (tboard_add_concurrent t).0 (pos 0)) (Keeps-pure false) (enter_task-Keeps p) n
        _ (add_concurrent-same t ∙ e)

  discard_task-Keeps : (c p : Ptr) → Keeps {env = env} (discard_task c p)
  unfolding discard_task destroy_context
  discard_task-Keeps c p n t e = Keeps-bind (free_task-Keeps p) (λ _. Keeps-pure false) n _ e

  start_task-Keeps : (p : Ptr) (res : Option Ptr) → Keeps {env = env} (start_task p res)
  unfolding start_task
  start_task-Keeps p none = Keeps-bind (free_task-Keeps p) λ _. Keeps-pure false
  start_task-Keeps p (some c) = Keeps-bind (load_task-Keeps p) λ task.
      Keeps-bind (store_task-Keeps p _) λ _.
        Keeps-bind (task_add-Keeps (some p))
          λ added. Keeps-if added (Keeps-pure true) (discard_task-Keeps c p)

  pub task_create-Keeps :
      (fn : Function) (type : ℤ) (args : Option Ptr) (size : ℕ)
      → Keeps {env = env} (task_create fn type args size)
  unfolding task_create
  task_create-Keeps fn type args size =
      Keeps-bind (alloc_task-Keeps _)
        λ p. Keeps-bind (create_context-Keeps _) λ res. start_task-Keeps p res

  exec_message-Keeps : (msg : Msg) → Keeps {env = env} (exec_message msg)
  unfolding exec_message
  exec_message-Keeps msg = Keeps-bind (alloc_task-Keeps _) λ p.
      Keeps-bind (create_context-Keeps _) λ res. Keeps-bind (load_task-Keeps p) λ made.
        Keeps-bind (store_task-Keeps p _) λ _.
          Keeps-bind (task_add-Keeps (some p))
            λ added. Keeps-if added (Keeps-pure true) (discard_task-Keeps _ p)

  pub msg_processor-Keeps : (msg : Msg) → Keeps {env = env} (msg_processor msg)
  unfolding msg_processor bid_processing
  msg_processor-Keeps msg = Keeps-if (eq_ℤ msg.type task_exec) (exec_message-Keeps msg) (
      Keeps-if (eq_ℤ msg.type task_schedule)
        (Keeps-if (eq_ℤ msg.subtype primary_exec) (Keeps-pure false) (Keeps-pure false))
        (Keeps-pure false))

  answer-Keeps : (r : Ptr) (x : RemoteTask) (tok : Bytes) → Keeps {env = env} (answer r x tok)
  unfolding answer
  answer-Keeps r x tok =
      Keeps-if (bytes_eq tok (codes "print")) completed
        (Keeps-if (bytes_eq tok (codes "math")) completed (Keeps-pure false))
    where
      completed : Keeps {env = env} (
          expect x.payload >>= λ _.
          store_remote r (record x { status = task_completed }) >> pure true)
      completed =
          Keeps-bind (expect-Keeps x.payload)
            λ _. Keeps-bind (store_remote-Keeps r _) λ _. Keeps-pure true

  mqtt_issue_remote_task-Keeps : (r : Option Ptr) → Keeps {env = env} (mqtt_issue_remote_task r)
  unfolding mqtt_issue_remote_task remote_task_place signal
  mqtt_issue_remote_task-Keeps none = Keeps-pure false
  mqtt_issue_remote_task-Keeps (some r) = Keeps-bind (load_remote-Keeps r) λ rtask.
      Keeps-bind (expect-Keeps (strtok (codes rtask.message)).0)
        λ tok. Keeps-bind (answer-Keeps r rtask tok) λ counts n t e. only e

  front-Keeps :
      {n : ℕ} (q : Queue Ptr) (t : Board env)
      → t.msg_sent ≡ q
      → t.sqs ≡ n
      → Only (Sized n) (mqtt_othread t)
  unfolding mqtt_othread othread_section queue_peek_front queue_pop_head stailq_remove_head
  front-Keeps [] t at e = rw at (only e)
  front-Keeps {n} (r ∷ q) t at e = rw at (
      Keeps-bind (mqtt_issue_remote_task-Keeps (some r)) (λ counts. Keeps-pure (some counts)) n _ e)

  pub mqtt_othread-Keeps : Keeps {env = env} mqtt_othread
  mqtt_othread-Keeps n t e = front-Keeps t.msg_sent t refl e

  count_yield-Keeps : (x : Task) → Keeps {env = env} (count_yield x)
  unfolding count_yield
  count_yield-Keeps x =
      Keeps-bind (expect-Keeps x.hist) λ h. Keeps-bind (load_hist-Keeps h) λ d. store_hist-Keeps h _

  reinsert-Keeps : (args : Exec) (slot : Slot) (p : Ptr) → Keeps {env = env} (reinsert args slot p)
  unfolding reinsert reinsert_at signal
  reinsert-Keeps args primary p =
      Keeps-bind (load_task-Keeps p) λ task. λ n t e. only (ground arith)
  reinsert-Keeps args (secondary i) p =
      Keeps-bind (load_task-Keeps p) λ task. λ n t e. only (ground arith)

  on_coros-Keeps :
      {A : Type 0} (f : env.Coros → Option (A × env.Coros))
      → Keeps {env = env} (on_coros {env = env} f)
  on_coros-Keeps f n t e = elim (Option-cases (f t.coros)) [
    | inl failed ↦ rw failed faults
    | inr ((a, k), done) ↦ rw done (only e)
  ]

  issue_local-Keeps : (p c : Ptr) → Keeps {env = env} (issue_local p c)
  unfolding issue_local
  issue_local-Keeps p c =
      Keeps-bind (on_coros-Keeps (env.mco_pop_task c))
        λ subtask. Keeps-bind (alloc_task-Keeps _) λ sub. task_place-Keeps sub

  issue_remote-Keeps :
      (args : Exec) (slot : Slot) (p c : Ptr) → Keeps {env = env} (issue_remote args slot p c)
  unfolding issue_remote
  issue_remote-Keeps args slot p c = Keeps-bind (on_coros-Keeps (env.mco_pop_remote c)) λ rtask.
      Keeps-bind (alloc_remote-Keeps _) λ r.
        Keeps-bind (remote_task_place-Keeps (some r) true)
          λ _. Keeps-if rtask.blocking (Keeps-pure tt) (reinsert-Keeps args slot p)

  after_yield-Keeps :
      (args : Exec) (slot : Slot) (p c : Ptr) → Keeps {env = env} (after_yield args slot p c)
  unfolding after_yield
  after_yield-Keeps args slot p c n t e =
      Keeps-if (env.mco_get_bytes_stored c t.coros == env.sizeof_task) (issue_local-Keeps p c)
        (Keeps-if (env.mco_get_bytes_stored c t.coros == env.sizeof_remote_task)
          (issue_remote-Keeps args slot p c) (reinsert-Keeps args slot p))
        n t e

  on_yield-Keeps : (args : Exec) (slot : Slot) (p : Ptr) → Keeps {env = env} (on_yield args slot p)
  unfolding on_yield
  on_yield-Keeps args slot p = Keeps-bind (load_task-Keeps p) λ task.
      Keeps-bind (store_task-Keeps p _)
        λ _. Keeps-bind (count_yield-Keeps task) λ _. after_yield-Keeps args slot p task.ctx

  wake_parent-Keeps : (q : Ptr) (x : Task) → Keeps {env = env} (wake_parent q x)
  unfolding wake_parent
  wake_parent-Keeps q x = Keeps-bind (load_task-Keeps q) λ waiting n t e.
      elim (Option-cases (env.mco_push waiting.ctx (task_bytes x) t.coros)) [
        | inl failed ↦ rw failed faults
        | inr (k, done) ↦ rw done (task_place-Keeps q n _ e)
      ]

  leave-Keeps : (o : Option Ptr) (x : Task) → Keeps {env = env} (leave o x)
  unfolding leave tboard_deinc_concurrent
  leave-Keeps none x n t e = only e
  leave-Keeps (some q) x n t e = wake_parent-Keeps q x n t e

  on_dead-Keeps : (p : Ptr) → Keeps {env = env} (on_dead p)
  unfolding on_dead
  on_dead-Keeps p = Keeps-bind (load_task-Keeps p) λ task.
      Keeps-bind (history_record_exec-Keeps _) λ h.
        Keeps-bind (store_task-Keeps p _)
          λ _. Keeps-bind (leave-Keeps task.parent _) λ _. release_task-Keeps p _

  after_resume-Keeps :
      (state : CoroState) (args : Exec) (slot : Slot) (p : Ptr)
      → Keeps {env = env} (after_resume state args slot p)
  unfolding after_resume
  after_resume-Keeps suspended args slot p = on_yield-Keeps args slot p
  after_resume-Keeps dead args slot p = on_dead-Keeps p
  after_resume-Keeps normal args slot p = Keeps-pure tt
  after_resume-Keeps running args slot p = Keeps-pure tt

  pub finish-Keeps :
      (args : Exec) (slot : Slot) (p : Ptr) (start end : ℕ)
      → Keeps {env = env} (finish args slot p start end)
  unfolding finish
  finish-Keeps args slot p start end = Keeps-bind (load_task-Keeps p) λ task.
      Keeps-bind (store_task-Keeps p _)
        λ _ n t e. after_resume-Keeps (env.mco_status task.ctx t.coros) args slot p n t e
