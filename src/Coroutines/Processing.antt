-- ===== src/Coroutines/Processing.antt =====
-- `msg_processor` of src/processor.c gives a new task its own coroutine, or none.
use jam_tboard.Common.{
  suc, ◌≡◌, refl, Bool, true, false, none, some, update, arith, eq_ℤ, if◌then◌else◌, Bool-cases,
  Option-cases, inl, inr,
}
use jam_tboard.Task.{Ptr, null, Task, primary_exec}
use jam_tboard.Env.{Env}
use jam_tboard.Env.Views.{CoroViews}
use jam_tboard.Board.{Board, pure, alloc_task}
use jam_tboard.Processor.{
  Msg, task_exec, task_schedule, message_task, exec_message, msg_processor, bid_processing,
}
use jam_tboard.Create.{create_context, destroy_context, discard_task}
use jam_tboard.Ownership.Only.{Only, only, Only-bind}
use jam_tboard.Coroutines.Defs.{Role, Tenants}
use jam_tboard.Coroutines.Frame.{Alike, Alike-trans}
use jam_tboard.Coroutines.Moves.{same_view}
use jam_tboard.Coroutines.Objects.{blank_task}
use jam_tboard.Coroutines.Likes.{Alike-refl, load_task-Only, store_task-Only}
use jam_tboard.Coroutines.Placing.{task_add-Likes}
use jam_tboard.Coroutines.Steps.{Everyone, Step, Step-Alike, Step-then}
use jam_tboard.Coroutines.Creating.{put_away, recoros, rewritten, settle}

module _ {env : Env} (coro : CoroViews env) where
  -- A task without a context, which the processor makes when it gets none.
  bare_task :
      {roles : Ptr → Role} {t u : Board env} (T : Tenants coro roles t) (x : Task)
      → x.ctx ≡ null
      → x.parent ≡ none
      → Alike (record t { tasks = update t.tasks t.next (some x); next = suc t.next }) u
      → (added : Bool)
      → Only
          (λ _ w. Step coro Everyone roles t w)
          ((if added then pure true else discard_task null t.next) u)
  unfolding discard_task destroy_context
  bare_task {roles} {t} T x is orphan m true =
      let empty = T.fresh_task t.next (omega arith) in
      only (
        Step-then coro
          (
            roles,
            blank_task coro T t.next x (omega arith) is orphan,
            record {
              tasks = λ a y at other. (y, ground (arith, empty), refl);
              spots = λ c a s at other up. at;
              runners = λ c a s busy at other. at;
              calls = λ c. refl;
            },
          )
          m)
  bare_task {roles} {t} T x is orphan m false =
      let m' = recoros coro (env.mco_destroy null) m in
      let T' = same_view coro T (env.mco_destroy null t.coros) (coro.destroy_null t.coros) in
      Only-bind
        (put_away coro t x (env.mco_destroy null t.coros) (T.fresh_task t.next (omega arith)) m')
        λ _ w n. only (
          Step-then coro
            (
              roles,
              T',
              record {
                tasks = λ a y at other. (y, at, refl);
                spots = λ c a s at other up. at;
                runners = λ c a s busy at other. at;
                calls = λ c. refl;
              },
            )
            n)

  exec_message-Step :
      {roles : Ptr → Role} {t : Board env}
      → Tenants coro roles t
      → (msg : Msg) → Only (λ _ u. Step coro Everyone roles t u) (exec_message msg t)
  unfolding exec_message alloc_task create_context
  exec_message-Step {roles} {t} T msg =
      let x : Task = message_task env msg in
      elim (Option-cases (env.mco_create x.desc t.coros)) [
        | inl failed ↦
            rw (failed, create_context)
              (Only-bind (load_task-Only t.next _) λ y u (at, is).
                Only-bind (store_task-Only t.next (record y { ctx = null }) u) λ _ v (_, put).
                  Only-bind (task_add-Likes t.next v) λ added w m.
                    bare_task T (record y { ctx = null }) refl
                      (let same : x ≡ y = ground arith in rw (← same) refl)
                      (Alike-trans (rewritten coro t x _ t.coros (rw is at put)) m) added)
        | inr ((c, k), made) ↦
            rw (made, create_context)
              (Only-bind (load_task-Only t.next _) λ y u (at, is).
                Only-bind (store_task-Only t.next (record y { ctx = c }) u) λ _ v (_, put).
                  Only-bind (task_add-Likes t.next v) λ added w m.
                    settle coro T x.desc c k (record y { ctx = c }) made refl
                      (let same : x ≡ y = ground arith in rw (← same) refl)
                      (Alike-trans (rewritten coro t x _ k (rw is at put)) m) added)
      ]

  pub msg_processor-Step :
      {roles : Ptr → Role} {t : Board env}
      → Tenants coro roles t
      → (msg : Msg) → Only (λ _ u. Step coro Everyone roles t u) (msg_processor msg t)
  unfolding msg_processor bid_processing
  msg_processor-Step {roles} {t} T msg = elim (Bool-cases (eq_ℤ msg.type task_exec)) [
    | inl exec ↦ rw exec (exec_message-Step T msg)
    | inr other ↦
        let same : Only (λ _ u. Step coro Everyone roles t u) (some (false, t)) =
          only (Step-Alike coro T (Alike-refl t)) in
        elim (Bool-cases (eq_ℤ msg.type task_schedule)) [
          | inl bid ↦ elim (Bool-cases (eq_ℤ msg.subtype primary_exec)) [
            | inl e ↦ rw (other, bid, e) same
            | inr e ↦ rw (other, bid, e) same
          ]
          | inr neither ↦ rw (other, neither) same
        ]
  ]
