-- ===== src/Coroutines/Stopping.antt =====
-- What a task leaves when it stops, and what its executor in src/executor.c then does with it.
use mathlib.Core.Path.{subst}
use jam_tboard.Common.{ℕ, ◌≡◌, ◌⊎◌, sym, ap, ◌∙◌, none, some, update, arith, inl, inr}
use jam_tboard.Task.{Ptr, null, Task, dead, suspended}
use jam_tboard.Env.{Env}
use jam_tboard.Env.Views.{bytes_of, CoroViews, task_stored}
use jam_tboard.Board.{Board}
use jam_tboard.Executor.Fetch.{Exec, Slot}
use jam_tboard.Executor.{after_resume, finish}
use jam_tboard.Ownership.Defs.{Held, with_task, Sound, HasRoom, KnowsStored}
use jam_tboard.Ownership.Rounds.{HasRun}
use jam_tboard.Ownership.Responding.{CallersWait}
use jam_tboard.Ownership.Only.{Only, Only-bind}
use jam_tboard.Coroutines.Defs.{
  Wait, on_task, on_remote, Spot, clear, asking, passing, issuing, asleep, woken, active, Role,
  serves, Asks, by_task, by_remote, Tenants,
}
use jam_tboard.Coroutines.Frame.{context, context-some, Alike-Tenants, Alike-Asks}
use jam_tboard.Coroutines.Moves.{serves-nonnull}
use jam_tboard.Coroutines.Likes.{Only-mono, load_task-Only, rewrite_task}
use jam_tboard.Coroutines.Steps.{Done, Done-after}
use jam_tboard.Coroutines.Alone.{alone_task, hand-Asks}
use jam_tboard.Coroutines.Yielding.{HasStopped, on_yield-Step}
use jam_tboard.Coroutines.Ending.{hide-Alike, on_dead-Step}

-- The task has no coroutine, or has stopped of its own.
abbrev pub StoppedAt : (Ptr → Role) → Ptr → Task → Type 0
StoppedAt roles p x = (x.ctx ≡ null) ⊎ ((s : Spot) × (roles x.ctx ≡ serves p s) × HasStopped s)

module _ {env : Env} (coro : CoroViews env) {roles : Ptr → Role} {t : Board env}
    (T : Tenants coro roles t) where
  open coro use {view}

  asleep-HasRoom : (a : Ptr) (x : Task) (w : Wait) → roles x.ctx ≡ serves a (asleep w) → HasRoom t x
  asleep-HasRoom a x w role =
      let (made, state, empty) = rw role at (T.filled x.ctx) in
      let nonnull = serves-nonnull coro T x.ctx a (asleep w) role in
      (
        coro.bytes x.ctx t.coros ∙ ap (bytes_of env) empty,
        λ item. let (k, pushed, v) = coro.push x.ctx item t.coros made empty in (k, pushed),
      )

  pub Tenants-CallersWait : CallersWait t
  Tenants-CallersWait r p x y at b up there =
      let (z, there', role) = T.asked p on_remote (by_remote r x at b up) in
      let same : z ≡ y = cc in asleep-HasRoom p y on_remote (rw (← same) role)

  module _ (p : Ptr) (x : Task) (at : t.tasks p ≡ some x) where
    stopped_spot :
        (s : Spot)
        → roles x.ctx ≡ serves p s
        → HasStopped s
        → ((view t.coros x.ctx).state ≡ suspended) ⊎ ((view t.coros x.ctx).state ≡ dead)
    stopped_spot clear role stop = let (made, state, empty) = rw role at (T.filled x.ctx) in state
    stopped_spot (issuing d) role stop = inl ((rw role at (T.filled x.ctx)).1)
    stopped_spot asking role stop = inl ((rw role at (T.filled x.ctx)).1)
    stopped_spot passing role stop = inl ((rw role at (T.filled x.ctx)).1)
    stopped_spot active role stop = absurd stop
    stopped_spot (asleep w) role stop = absurd stop
    stopped_spot (woken w) role stop = absurd stop

    knows_spot : (s : Spot) → roles x.ctx ≡ serves p s → HasStopped s → KnowsStored t x.ctx
    knows_spot (issuing d) role stop size z k e =
        let (made, state, (y, stored, ctx, orphan, known)) = rw role at (T.filled x.ctx) in
        let (k', popped, v) = coro.pop_task x.ctx y t.coros stored in
        let same : y ≡ z = cc in rw (← same) known
    knows_spot clear role stop size z k e =
        let (y, stored) =
          task_stored coro (view t.coros x.ctx).stored (sym (coro.bytes x.ctx t.coros) ∙ size) in
        let (made, state, empty) = rw role at (T.filled x.ctx) in absurd (cc)
    knows_spot asking role stop size z k e =
        let (y, stored) =
          task_stored coro (view t.coros x.ctx).stored (sym (coro.bytes x.ctx t.coros) ∙ size) in
        let (made, state, (r, other, b, fit)) = rw role at (T.filled x.ctx) in absurd (cc)
    knows_spot passing role stop size z k e =
        let (y, stored) =
          task_stored coro (view t.coros x.ctx).stored (sym (coro.bytes x.ctx t.coros) ∙ size) in
        let (made, state, (r, other, b, fit)) = rw role at (T.filled x.ctx) in absurd (cc)
    knows_spot active role stop size z k e = absurd stop
    knows_spot (asleep w) role stop size z k e = absurd stop
    knows_spot (woken w) role stop size z k e = absurd stop

    -- What is asked of a task's run.
    pub StoppedAt-HasRun : StoppedAt roles p x → HasRun t x
    StoppedAt-HasRun stop = record {
      stopped = elim stop [
        | inl bare ↦
            inr (coro.status x.ctx t.coros ∙ rw bare (ap (λ c. c.state) (coro.null_view t.coros)))
        | inr (s, role, has) ↦ (elim (stopped_spot s role has) [
          | inl e ↦ inl (coro.status x.ctx t.coros ∙ e)
          | inr e ↦ inr (coro.status x.ctx t.coros ∙ e)
        ])
      ];
      issued = elim stop [
        | inl bare ↦ λ size z k e.
            let (y, stored) =
              task_stored coro (view t.coros x.ctx).stored
                (sym (coro.bytes x.ctx t.coros) ∙ size) in
            let empty : (view t.coros x.ctx).stored ≡ none =
              rw bare (ap (λ c. c.stored) (coro.null_view t.coros)) in
            absurd (cc)
        | inr (s, role, has) ↦ knows_spot s role has
      ];
      waiting = λ q y up there.
          let (z, there', role) = T.asked q on_task (by_task p x at up) in
          let same : z ≡ y = cc in asleep-HasRoom q y on_task (rw (← same) role);
    }

    -- The branch that the coroutine's status selects.
    module _ (free : (w : Wait) → Asks t.tasks t.remotes p w → ⊥)
        (lone : (q : Ptr) (w : Wait)
          → x.parent ≡ some q
          → Asks (update t.tasks p none) t.remotes q w
          → ⊥)
        (args : Exec) (slot : Slot) where
      yielded-Step :
          (s : Spot)
          → roles x.ctx ≡ serves p s
          → HasStopped s
          → (view t.coros x.ctx).state ≡ suspended
          → Only
              (λ _ u. Done coro p x.ctx roles t u)
              (after_resume (env.mco_status x.ctx t.coros) args slot p t)
      unfolding after_resume
      yielded-Step s role has state =
          rw (coro.status x.ctx t.coros ∙ state) (on_yield-Step coro T p x at args slot s role has)

      ended-Step :
          (x.ctx ≡ null) ⊎ (roles x.ctx ≡ serves p clear)
          → (view t.coros x.ctx).state ≡ dead
          → Only
              (λ _ u. Done coro p x.ctx roles t u)
              (after_resume (env.mco_status x.ctx t.coros) args slot p t)
      unfolding after_resume
      ended-Step mine state =
          rw (coro.status x.ctx t.coros ∙ state) (on_dead-Step coro p x free lone T at mine)

      pub handled-Step :
          StoppedAt roles p x
          → Only
              (λ _ u. Done coro p x.ctx roles t u)
              (after_resume (env.mco_status x.ctx t.coros) args slot p t)
      handled-Step (inl bare) =
          ended-Step (inl bare) (rw bare (ap (λ c. c.state) (coro.null_view t.coros)))
      handled-Step (inr (clear, role, has)) = elim (stopped_spot clear role has) [
        | inl state ↦ yielded-Step clear role has state
        | inr state ↦ ended-Step (inr role) state
      ]
      handled-Step (inr (issuing d, role, has)) =
          yielded-Step (issuing d) role has (rw role at (T.filled x.ctx)).1
      handled-Step (inr (asking, role, has)) =
          yielded-Step asking role has (rw role at (T.filled x.ctx)).1
      handled-Step (inr (passing, role, has)) =
          yielded-Step passing role has (rw role at (T.filled x.ctx)).1
      handled-Step (inr (active, role, has)) = absurd has
      handled-Step (inr (asleep w, role, has)) = absurd has
      handled-Step (inr (woken w, role, has)) = absurd has

module _ {env : Env} (coro : CoroViews env) where
  -- The rest of an executor's round.
  pub finish-Step :
      (h : Held) {roles : Ptr → Role} {t : Board env}
      → Tenants coro roles t
      → (args : Exec) (slot : Slot) (p : Ptr) (x : Task) (start end : ℕ) → Sound (with_task p h) t
      → ((a : Ptr) → h.debt a ≡ 0)
      → t.tasks p ≡ some x
      → StoppedAt roles p x
      → Only (λ _ u. Done coro p x.ctx roles t u) (finish args slot p start end t)
  unfolding finish
  finish-Step h {roles} {t} T args slot p x start end s debts at stop =
      Only-bind (load_task-Only p t) λ y u (there, is). rw is (
        Only-bind (rewrite_task p _ t (ap context (sym there))) λ _ v m.
          let (z, now, ctx, up) =
            context-some (v.tasks p) y (ap context (sym there) ∙ sym (m.tasks p)) in
          let same : y ≡ x = cc in
          let ctx' : z.ctx ≡ x.ctx = ctx ∙ ap (λ o. o.ctx) same in
          let up' : z.parent ≡ x.parent = up ∙ ap (λ o. o.parent) same in
          Only-mono
            (subst
              (λ c.
                Only (λ _ w. Done coro p c roles v w)
                  (after_resume (env.mco_status c v.coros) args slot p v))
              ctx
              (handled-Step coro (Alike-Tenants m T) p z now
                (λ w asks. hand-Asks s debts p w (ground arith) (Alike-Asks m asks))
                (λ q w child asks.
                  alone_task s debts p q x w at (sym up' ∙ child)
                    (Alike-Asks (hide-Alike coro p m) asks))
                args slot (rw ctx' stop)))
            λ _ w step. Done-after coro m (ap (λ o. o.ctx) same) step)
