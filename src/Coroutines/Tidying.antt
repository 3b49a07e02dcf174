-- ===== src/Coroutines/Tidying.antt =====
-- A task that is not taken on leaves no coroutine behind.
use jam_tboard.Common.{
  ℕ, ◌≡◌, refl, ap, ◌∙◌, fun_ext, Bool, true, false, Option, some, ℤ, arith, ◌==◌, eq_ℤ,
  if◌then◌else◌, Bool-cases, Option-cases, inl, inr,
}
use jam_tboard.Task.{Ptr, null, Function, Desc, Task, primary_exec, task_id_nonblocking}
use jam_tboard.Env.{Env}
use jam_tboard.Env.Views.{CoroViews}
use jam_tboard.Board.{Board, pure, alloc_task}
use jam_tboard.Create.{
  new_task, create_context, destroy_context, discard_task, start_task, task_create,
}
use jam_tboard.Processor.{
  Msg, task_exec, task_schedule, message_task, exec_message, msg_processor, bid_processing,
}
use jam_tboard.Ownership.Only.{Only, only, Only-bind}
use jam_tboard.Coroutines.Likes.{load_task-Only, store_task-Only, free_task-Only}
use jam_tboard.Coroutines.Placing.{task_add-Likes}

module _ {env : Env} (coro : CoroViews env) where
  open coro use {view}

  -- With the result false, each coroutine is as before.
  abbrev pub Tidy : env.Coros → Bool → Board env → Type 0
  Tidy k added u = added ≡ false → view u.coros ≡ view k

  destroy-create :
      (d : Desc) (c : Ptr) (k k' : env.Coros)
      → env.mco_create d k ≡ some (c, k')
      → view (env.mco_destroy c k') ≡ view k
  destroy-create d c k k' made =
      let (nonnull, new, v) = coro.create d c k k' made in
      let none_there = coro.unmade c k new in
      coro.destroy c k' (rw v (ground arith)) (inl (rw v (ground arith)))
      ∙ rw v (
          fun_ext λ a. elim (Bool-cases (c == a)) [
            | inl here ↦ rw here (let same : c ≡ a = ground arith in rw (← same, none_there) refl)
            | inr other ↦ rw other refl
          ])

  settle-Tidy :
      (k : env.Coros) (c p : Ptr) (added : Bool) (w : Board env)
      → view (env.mco_destroy c w.coros) ≡ view k
      → Only (Tidy k) ((if added then pure true else discard_task c p) w)
  unfolding discard_task destroy_context
  settle-Tidy k c p true w tidy = only (λ e. absurd (cc))
  settle-Tidy k c p false w tidy =
      Only-bind (free_task-Only p _) λ _ u (_, is). only (λ e. rw is tidy)

  pub task_create-Tidy :
      (fn : Function) (type : ℤ) (args : Option Ptr) (size : ℕ) (t : Board env)
      → Only (Tidy t.coros) (task_create fn type args size t)
  unfolding task_create alloc_task create_context start_task
  task_create-Tidy fn type args size t =
      let x : Task = new_task env task_id_nonblocking type fn args size in
      elim (Option-cases (env.mco_create x.desc t.coros)) [
        | inl failed ↦
            rw (failed, create_context)
              (Only-bind (free_task-Only t.next _) λ _ u (_, is). only (λ e. rw is refl))
        | inr ((c, k), made) ↦
            rw (made, create_context)
              (Only-bind (load_task-Only t.next _) λ y u (at, is).
                Only-bind (store_task-Only t.next (record y { ctx = c }) u) λ _ v (_, put).
                  Only-bind (task_add-Likes t.next v) λ added w m.
                    settle-Tidy t.coros c t.next added w (
                      ap (λ l. view (env.mco_destroy c l))
                        (m.coros ∙ ap (λ z. z.coros) put ∙ ap (λ z. z.coros) is)
                      ∙ destroy-create x.desc c t.coros k made))
      ]

  exec_message-Tidy : (msg : Msg) (t : Board env) → Only (Tidy t.coros) (exec_message msg t)
  unfolding exec_message alloc_task create_context
  exec_message-Tidy msg t =
      let x : Task = message_task env msg in
      elim (Option-cases (env.mco_create x.desc t.coros)) [
        | inl failed ↦
            rw (failed, create_context)
              (Only-bind (load_task-Only t.next _) λ y u (at, is).
                Only-bind (store_task-Only t.next (record y { ctx = null }) u) λ _ v (_, put).
                  Only-bind (task_add-Likes t.next v) λ added w m.
                    settle-Tidy t.coros null t.next added w (
                      ap (λ l. view (env.mco_destroy null l))
                        (m.coros ∙ ap (λ z. z.coros) put ∙ ap (λ z. z.coros) is)
                      ∙ coro.destroy_null t.coros))
        | inr ((c, k), made) ↦
            rw (made, create_context)
              (Only-bind (load_task-Only t.next _) λ y u (at, is).
                Only-bind (store_task-Only t.next (record y { ctx = c }) u) λ _ v (_, put).
                  Only-bind (task_add-Likes t.next v) λ added w m.
                    settle-Tidy t.coros c t.next added w (
                      ap (λ l. view (env.mco_destroy c l))
                        (m.coros ∙ ap (λ z. z.coros) put ∙ ap (λ z. z.coros) is)
                      ∙ destroy-create x.desc c t.coros k made))
      ]

  pub msg_processor-Tidy : (msg : Msg) (t : Board env) → Only (Tidy t.coros) (msg_processor msg t)
  unfolding msg_processor bid_processing
  msg_processor-Tidy msg t = elim (Bool-cases (eq_ℤ msg.type task_exec)) [
    | inl exec ↦ rw exec (exec_message-Tidy msg t)
    | inr other ↦ elim (Bool-cases (eq_ℤ msg.type task_schedule)) [
      | inl bid ↦ elim (Bool-cases (eq_ℤ msg.subtype primary_exec)) [
        | inl e ↦ rw (other, bid, e) (only (λ e. refl))
        | inr e ↦ rw (other, bid, e) (only (λ e. refl))
      ]
      | inr neither ↦ rw (other, neither) (only (λ e. refl))
    ]
  ]
