-- ===== src/Coroutines/Resuming.antt =====
-- The switch to a task's coroutine, and the call there that it comes back to.
use mathlib.Core.Path.{subst}
use jam_tboard.Common.{
  ◌≡◌, refl, ap, ◌∙◌, fun_ext, Bool, true, Option, none, some, update, arith, ◌==◌, inl, inr,
}
use jam_tboard.Task.{Ptr, Task, Stored, task_bytes, remote_bytes, running, dead, task_completed}
use jam_tboard.Env.{Env}
use jam_tboard.Env.Views.{bytes_of, CoroViews}
use jam_tboard.Board.{Board, load_task}
use jam_tboard.Issue.{blocking_result, remote_result}
use jam_tboard.Turns.{come_back, switch_to, go_on, resume_task}
use jam_tboard.Ownership.Defs.{Held, Sound, Returns, returns}
use jam_tboard.Ownership.Frame.{coros-Sound}
use jam_tboard.Coroutines.Defs.{
  on_task, on_remote, Spot, clear, active, asking, passing, issuing, asleep, woken, Role, serves,
  call_of, Tenants,
}
use jam_tboard.Coroutines.Moves.{respot}
use jam_tboard.Coroutines.Turning.{Turned, Turned-refl}

-- A task in a ready queue is at one of these places.
abbrev pub IsReady : Spot → Type 0
IsReady clear = Unit {0}
IsReady (woken w) = Unit {0}
IsReady _ = ⊥

module _ {env : Env} (coro : CoroViews env) where
  open coro use {view}

  -- The coroutine runs, or it has ended and nothing happens.
  abbrev pub Resumed : Ptr → Ptr → (Ptr → Role) → Board env → Option Bool → (Ptr → Role) → Type 0
  Resumed p c roles t (some done) roles' = roles' c ≡ serves p active
  Resumed p c roles t none roles' = (roles' c ≡ serves p clear) × (env.mco_status c t.coros ≡ dead)

  abbrev pub Start : Held → Ptr → Ptr → (Ptr → Role) → Board env → Option Bool → Board env → Type 0
  Start h p c roles t back u =
      Sound h u
      × (u.sqs ≡ t.sqs)
      × ((roles' : Ptr → Role) × Tenants coro roles' u
          × Turned c roles t roles' u
          × Resumed p c roles t back roles')

  module _ {h : Held} {roles : Ptr → Role} {t : Board env} (p : Ptr) (x : Task) (s : Sound h t)
      (T : Tenants coro roles t) (at : t.tasks p ≡ some x) where
    -- The coroutine has control and its storage is empty.
    begun :
        (spot : Spot) (done : Bool) (k : env.Coros)
        → roles x.ctx ≡ serves p spot
        → IsReady spot
        → view k
          ≡ update (view t.coros) x.ctx (record { made = true; state = running; stored = none })
        → Start h p x.ctx roles t (some done) (record t { coros = k })
    begun spot done k role ready v = (
      coros-Sound k s,
      refl,
      (
        update roles x.ctx (serves p active),
        respot coro T k x.ctx p spot active (record { made = true; state = running; stored = none })
            role (λ w e asks. subst IsReady e ready) v (refl, refl, refl) (λ d e. absurd (cc)),
        record {
          tasks = λ a y there. (y, there, refl);
          spots = λ d a z ne e up. ground (arith, e, ne);
          runners = λ d a z ne busy e. ground (arith, e, ne);
          calls = λ d ne. ap call_of (ground (arith, ne));
        },
        ground arith,
      ),
    )

    -- The view after the switch, and after the pop of what was stored.
    switched_view :
        (k : env.Coros) (o : Option Stored)
        → (view t.coros x.ctx).made ≡ true
        → (view t.coros x.ctx).stored ≡ o
        → view k ≡ update (view t.coros) x.ctx (record (view t.coros x.ctx) { state = running })
        → view k ≡ update (view t.coros) x.ctx (record { made = true; state = running; stored = o })
    switched_view k o made stored v =
        let cell : record (view t.coros x.ctx) { state = running }
            ≡ record { made = true; state = running; stored = o } =
          λ i. record { made = made i; state = running; stored = stored i } in
        v ∙ ap (update (view t.coros) x.ctx) cell

    pub resume-Start :
        (spot : Spot)
        → roles x.ctx ≡ serves p spot
        → IsReady spot
        → Returns (Start h p x.ctx roles t) (resume_task p (call_of (serves p spot)) t)
    unfolding resume_task switch_to load_task go_on come_back blocking_result remote_result
    resume-Start clear role ready = elim ((rw role at (T.filled x.ctx)).1) [
      | inl up ↦
          let (made, state, empty) = rw role at (T.filled x.ctx) in
          let (k, resumed, v) = coro.resume x.ctx t.coros up in
          rw (at, resumed)
            (returns (begun clear true k role tt (switched_view k none made empty v)))
      | inr down ↦
          rw (at, coro.resume_dead x.ctx t.coros down)
            (returns (
              s,
              refl,
              (roles, T, Turned-refl x.ctx roles t, (role, coro.status x.ctx t.coros ∙ down)),
            ))
    ]
    resume-Start (woken on_task) role ready =
        let (made, state, (y, stored)) = rw role at (T.filled x.ctx) in
        let (k, resumed, v) = coro.resume x.ctx t.coros state in
        let there = switched_view k (some (task_bytes y)) made stored v in
        let has : (view k x.ctx).stored ≡ some (task_bytes y) = rw there (ground arith) in
        let size : env.mco_get_bytes_stored x.ctx k ≡ env.sizeof_task =
          coro.bytes x.ctx k ∙ ap (bytes_of env) has in
        let same : (env.sizeof_task == env.sizeof_task) ≡ true = ground arith in
        let (l, popped, w) = coro.pop_task x.ctx y k has in
        rw (at, resumed, size, same, popped)
          (returns (
            begun (woken on_task) (y.status == task_completed) l role tt
              (w ∙ rw there (fun_ext λ a. ground arith))))
    resume-Start (woken on_remote) role ready =
        let (made, state, (y, stored)) = rw role at (T.filled x.ctx) in
        let (k, resumed, v) = coro.resume x.ctx t.coros state in
        let there = switched_view k (some (remote_bytes y)) made stored v in
        let has : (view k x.ctx).stored ≡ some (remote_bytes y) = rw there (ground arith) in
        let size : env.mco_get_bytes_stored x.ctx k ≡ env.sizeof_remote_task =
          coro.bytes x.ctx k ∙ ap (bytes_of env) has in
        let same : (env.sizeof_remote_task == env.sizeof_remote_task) ≡ true = ground arith in
        let (l, popped, w) = coro.pop_remote x.ctx y k has in
        rw (at, resumed, size, same, popped)
          (returns (
            begun (woken on_remote) (y.status == task_completed) l role tt
              (w ∙ rw there (fun_ext λ a. ground arith))))
    resume-Start active role ready = absurd ready
    resume-Start asking role ready = absurd ready
    resume-Start passing role ready = absurd ready
    resume-Start (issuing d) role ready = absurd ready
    resume-Start (asleep w) role ready = absurd ready
