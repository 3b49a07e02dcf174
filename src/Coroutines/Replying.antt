-- ===== src/Coroutines/Replying.antt =====
-- The caller of a blocking remote task finds the answer, once the task sequencer of
-- src/sequencer.c has handled it.
use jam_tboard.Common.{
  ◌≡◌, sym, ap, ◌∙◌, Bool, Option, none, some, [], ◌∷◌, true, false, arith, Bool-cases,
  Option-cases, inl, inr,
}
use jam_tboard.Task.{Ptr, RemoteTask, remote_bytes}
use jam_tboard.Env.{Env}
use jam_tboard.Env.Views.{CoroViews}
use jam_tboard.Queue.{Queue, queue_peek_front, queue_pop_head}
use jam_tboard.Board.{Board, load_task, load_remote}
use jam_tboard.Sequencer.{
  push_remote, return_remote, handle_msg_recv, respond, sequencer_section, task_sequencer,
}
use jam_tboard.Task.{Task}
use jam_tboard.Ownership.Only.{Only, Only-bind, anything}
use jam_tboard.Coroutines.Defs.{by_remote, on_remote, Role, Tenants}
use jam_tboard.Coroutines.Frame.{context, context-some, Alike, Alike-Tenants}
use jam_tboard.Coroutines.Likes.{Only-mono, free_remote-Only}
use jam_tboard.Coroutines.Placing.{SameObjects-Alike, task_place-Likes}

module _ {env : Env} (coro : CoroViews env) where
  open coro use {view}

  -- The caller of a blocking remote task is live, with this answer in its coroutine's storage.
  abbrev pub Replied : Bool → Option Ptr → RemoteTask → Board env → Type 0
  Replied true (some p) x u =
      (y : Task) × (u.tasks p ≡ some y) × ((view u.coros y.ctx).stored ≡ some (remote_bytes x))
  Replied true none x u = Unit {0}
  Replied false o x u = Unit {0}

  -- So it is for the remote task of a message, if there is one.
  abbrev pub Answered : Option RemoteTask → Board env → Type 0
  Answered none u = Unit {0}
  Answered (some x) u = Replied x.blocking x.calling_task x u

  abbrev pub FrontAnswered : Board env → Option Ptr → Board env → Type 0
  FrontAnswered t none u = Unit {0}
  FrontAnswered t (some r) u = Answered (t.remotes r) u

  respond-Replied :
      {roles : Ptr → Role} {t : Board env}
      → Tenants coro roles t
      → (r : Ptr) (x : RemoteTask) → t.remotes r ≡ some x
      → Only (λ _ u. Replied x.blocking x.calling_task x u) (respond (some r) t)
  unfolding respond handle_msg_recv load_remote return_remote load_task push_remote
  respond-Replied {roles} {t} T r x at = rw at (elim (Bool-cases x.blocking) [
    | inr b ↦ rw b (anything _)
    | inl b ↦ elim (Option-cases x.calling_task) [
      | inl up ↦ rw (b, up) (anything _)
      | inr (p, up) ↦
          let (y, there, role) = T.asked p on_remote (by_remote r x at b up) in
          let (made, state, empty) = rw role at (T.filled y.ctx) in
          let (k, pushed, v) = coro.push y.ctx (remote_bytes x) t.coros made empty in
          rw (b, up, there, at, pushed)
            (Only-bind (task_place-Likes p (record t { coros = k })) λ _ u m.
              Only-mono (free_remote-Only r u) λ _ w (_, is).
                let (z, now, ctx, _) =
                  context-some (u.tasks p) y (ap context (sym there) ∙ sym (m.tasks p)) in
                let coros : w.coros ≡ k = ap (λ b. b.coros) is ∙ m.coros in
                (z, ap (λ b. b.tasks p) is ∙ now, rw (coros, ctx, v) (ground arith)))
    ]
  ])

  section-Answered :
      {roles : Ptr → Role} {t : Board env}
      → Tenants coro roles t
      → (q : Queue Ptr)
      → Only
          (λ _ u. FrontAnswered t (queue_peek_front q) u)
          (respond (queue_pop_head q).0 (record t { msg_recv = (queue_pop_head q).1 }))
  unfolding queue_pop_head queue_peek_front
  section-Answered T [] = anything _
  section-Answered {t = t} T (r ∷ rest) =
      let m : Alike t (record t { msg_recv = rest }) = SameObjects-Alike (ground arith) in
      elim (Option-cases (t.remotes r)) [
        | inl e ↦ rw e (anything _)
        | inr (x, at) ↦ rw at (respond-Replied (Alike-Tenants m T) r x at)
      ]

  pub task_sequencer-Answered :
      {roles : Ptr → Role} {t : Board env}
      → Tenants coro roles t
      → Only (λ _ u. FrontAnswered t (queue_peek_front t.msg_recv) u) (task_sequencer t)
  unfolding task_sequencer sequencer_section
  task_sequencer-Answered {t = t} T = elim (Option-cases (queue_peek_front t.msg_recv)) [
    | inl e ↦ rw (e, task_sequencer) (anything _)
    | inr (r, e) ↦
        let answered = section-Answered T t.msg_recv in rw (e, task_sequencer) (rw e at answered)
  ]
