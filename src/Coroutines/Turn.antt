-- ===== src/Coroutines/Turn.antt =====
-- A whole turn of a task, from the switch to its coroutine to the switch back.
use jam_tboard.Common.{
  ℕ, zero, suc, ◌≡◌, ◌<◌, refl, ap, ◌∙◌, Bool, none, some, arith, inl, inr, ◌⊎◌,
}
use jam_tboard.Task.{Ptr, null, Task}
use jam_tboard.Env.{Env}
use jam_tboard.Env.Laws.{HashLaws}
use jam_tboard.Env.Views.{CoroViews}
use jam_tboard.Board.{Board, load_task}
use jam_tboard.Turns.{
  Call, Turn, goes_on, stops, depth, carry, run_turn, switch_to, go_on, resume_task, run_resumed,
  take_turn,
}
use jam_tboard.Ownership.Defs.{short, Held, Sound, Returns, returns, Returns-bind, Returns-mono}
use jam_tboard.Coroutines.Defs.{Spot, clear, active, Role, serves, call_of, Tenants}
use jam_tboard.Coroutines.Yielding.{HasStopped}
use jam_tboard.Coroutines.Stopping.{StoppedAt}
use jam_tboard.Coroutines.Turning.{IsProper, Turned, After}
use jam_tboard.Coroutines.Ticking.{Turned-trans, tick-After}
use jam_tboard.Coroutines.Depth.{Leads, Leads-shorter}
use jam_tboard.Coroutines.Resuming.{IsReady, Start, resume-Start}

-- Where a task in a ready queue is: its coroutine is at a place, or it has none.
abbrev pub ReadyAt : (Ptr → Role) → Ptr → Task → Call → Type 0
ReadyAt roles p x call =
    (x.ctx ≡ null)
    ⊎ ((s : Spot) × (roles x.ctx ≡ serves p s) × IsReady s × (call_of (serves p s) ≡ call))

module _ {env : Env} (coro : CoroViews env) where
  -- The coroutine has stopped, and has left the others alone.
  abbrev Rests : Held → Ptr → Ptr → (Ptr → Role) → Board env → Board env → Type 0
  Rests h p c roles t u =
      Sound h u
      × (u.sqs ≡ t.sqs)
      × ((roles' : Ptr → Role) × Tenants coro roles' u
          × Turned c roles t roles' u
          × ((s : Spot) × (roles' c ≡ serves p s) × HasStopped s))

  resume-none :
      (t : Board env) (p : Ptr) (x : Task) (call : Call)
      → t.tasks p ≡ some x
      → x.ctx ≡ null
      → resume_task p call t ≡ some (none, t)
  unfolding resume_task switch_to go_on load_task
  resume-none t p x call at bare =
      let no_one = ap (λ w. w.state) (coro.null_view t.coros) in
      rw (at, bare, coro.resume_dead null t.coros no_one) refl

module _ {env : Env} (hash : HashLaws env) (coro : CoroViews env) {h : Held}
    (debts : (a : Ptr) → h.debt a ≡ 0) (settled : h.pending ≡ short 0) (en : h.new ≡ none) where
  run_turn-Rests :
      (n : ℕ) {roles : Ptr → Role} {t : Board env} (p c : Ptr) (turn : Turn)
      → depth turn < n
      → IsProper turn
      → Sound h t
      → Tenants coro roles t
      → roles c ≡ serves p active
      → Returns (λ _ u. Rests coro h p c roles t u) (run_turn n c turn t)
  unfolding run_turn
  run_turn-Rests zero p c turn le proper s T role = absurd (omega (arith, le))
  run_turn-Rests (suc n) {roles} {t} p c turn le proper s T role =
      Returns-bind (tick-After coro hash debts settled en p c s T role turn proper) λ next u both.
        (elim next
            as (λ z.
              After coro h p c roles t z u × Leads turn z
              → Returns (λ _ v. Rests coro h p c roles t v) (carry (run_turn n c) z u)) [
                | stops call ↦ λ ((s1, same, (roles', T1, turned, (spot, is, stop, _))), _).
                    returns (s1, same, (roles', T1, turned, (spot, is, stop)))
                | goes_on rest ↦ λ ((s1, same, (roles', T1, turned, (is, proper'))), leads).
                    let less = Leads-shorter turn rest leads in
                    Returns-mono
                      (run_turn-Rests n p c rest (omega (arith, le, less)) proper' s1 T1 is)
                      λ _ v (s2, same2, (roles'', T2, turned2, at)).
                        (s2, same2 ∙ same, (roles'', T2, Turned-trans coro turned turned2, at))
              ])
          both

  -- A whole turn of a task returns without a fault, with the task stopped.
  pub take_turn-StoppedAt :
      {roles : Ptr → Role} {t : Board env} (p : Ptr) (x : Task) (call : Call) (turns : Bool → Turn)
      → ((done : Bool) → IsProper (turns done))
      → Sound h t
      → Tenants coro roles t
      → t.tasks p ≡ some x
      → ReadyAt roles p x call
      → Returns
          (λ _ u.
            Sound h u
            × (u.sqs ≡ t.sqs)
            × ((roles' : Ptr → Role) × (y : Task) × Tenants coro roles' u
                × (u.tasks p ≡ some y)
                × StoppedAt roles' p y))
          (take_turn call turns p t)
  unfolding take_turn run_resumed load_task
  take_turn-StoppedAt {roles} {t} p x call turns proper s T at (inl bare) =
      let idle = resume-none coro t p x call at bare in
      rw (at, idle) (returns (s, refl, (roles, x, T, at, inl bare)))
  take_turn-StoppedAt {roles} {t} p x call turns proper s T at (inr (spot, role, ready, is)) =
      rw (at, ← is)
        (Returns-bind (resume-Start coro p x s T at spot role ready) λ back u both.
          (elim back
              as (λ z.
                Start coro h p x.ctx roles t z u
                → Returns
                    (λ _ v.
                      Sound h v
                      × (v.sqs ≡ t.sqs)
                      × ((roles' : Ptr → Role) × (y : Task) × Tenants coro roles' v
                          × (v.tasks p ≡ some y)
                          × StoppedAt roles' p y))
                    (run_resumed turns x.ctx z u)) [
                      | none ↦ λ (s1, same, (roles', T1, turned, (is', down))).
                          let (y, there, ctx) = turned.tasks p x at in
                          returns
                            (s1, same, (roles', y, T1, there, inr (clear, ap roles' ctx ∙ is', tt)))
                      | some done ↦ λ (s1, same, (roles', T1, turned, is')).
                          Returns-mono
                            (run_turn-Rests (suc (depth (turns done))) p x.ctx (turns done)
                              (omega arith) (proper done) s1 T1 is')
                            λ _ v (s2, same2, (roles'', T2, turned2, (z, is'', stop))).
                              let (y, there, ctx) =
                                (Turned-trans coro turned turned2).tasks p x at in
                              (
                                s2,
                                same2 ∙ same,
                                (roles'', y, T2, there, inr (z, ap roles'' ctx ∙ is'', stop)),
                              )
                    ])
            both)
