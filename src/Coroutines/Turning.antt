-- ===== src/Coroutines/Turning.antt =====
-- A step of a task's turn keeps the memory sound and the coroutines in order.
use Prim.Native.String.{String, len}
use jam_tboard.Common.{
  ℕ, ◌≡◌, ◌≢◌, refl, ap, ◌∙◌, fun_ext, Bool, true, false, Option, none, some, ℤ, update, arith, ltb,
  Bool-cases, inl, inr, if◌then◌else◌,
}
use jam_tboard.Task.{
  Ptr, Function, Task, RemoteTask, Stored, remote_bytes, suspended, max_msg_length,
}
use jam_tboard.Env.{Env}
use jam_tboard.Env.Laws.{HashLaws}
use jam_tboard.Env.Views.{Cell, CoroViews}
use jam_tboard.Board.{Board}
use jam_tboard.Issue.{new_remote, push, remote_issue}
use jam_tboard.Turns.{
  no_call, in_remote, Turn, ends, yields, creates, blocks, asks, Next, goes_on, stops, yield_now,
  end_now, stop_in, tick,
}
use jam_tboard.Ownership.Defs.{short, Held, Sound, Returns, returns, Returns-bind}
use jam_tboard.Ownership.Frame.{coros-Sound}
use jam_tboard.Ownership.Only.{Returns-Only}
use jam_tboard.Ownership.Answering.{Answerable}
use jam_tboard.Ownership.Creation.{task_create-Returns}
use jam_tboard.Ownership.Size.Operations.{task_create-Keeps}
use jam_tboard.Coroutines.Defs.{
  Spot, clear, active, asking, passing, issuing, Role, serves, spare, call_of, Fills, Tenants,
}
use jam_tboard.Coroutines.Moves.{serves-nonnull, respot}
use jam_tboard.Coroutines.Steps.{Busy, Awake, Everyone, Leaves}
use jam_tboard.Coroutines.Creating.{task_create-Step}
use jam_tboard.Coroutines.Yielding.{HasStopped}

-- What a task asks a controller for can be answered.
abbrev pub IsProper : Turn → Type 0
IsProper ends = Unit {0}
IsProper yields = Unit {0}
IsProper (creates fn type args size rest) = (made : Bool) → IsProper (rest made)
IsProper (blocks fn type args size rest) = IsProper rest
IsProper (asks message args size blocking rest) =
    Answerable (new_remote message args size blocking) × IsProper rest

-- Where the coroutine is after a step of its turn.
abbrev pub Reaches : Ptr → Ptr → (Ptr → Role) → Next → Type 0
Reaches p c roles (goes_on turn) = (roles c ≡ serves p active) × IsProper turn
Reaches p c roles (stops call) =
    (s : Spot) × (roles c ≡ serves p s) × HasStopped s × (call_of (serves p s) ≡ call)

module _ {env : Env} where
  -- The tasks keep their contexts, and the other coroutines their places, if they are not asleep.
  pub record Turned (c : Ptr) (roles : Ptr → Role) (t : Board env) (roles' : Ptr → Role)
      (u : Board env) : Type 0 where
    pub tasks :
        (a : Ptr) (x : Task)
        → t.tasks a ≡ some x
        → (y : Task) × (u.tasks a ≡ some y) × (y.ctx ≡ x.ctx)
    pub spots :
        (d a : Ptr) (s : Spot) → c ≢ d → roles d ≡ serves a s → Awake s → roles' d ≡ serves a s
    pub runners :
        (d a : Ptr) (s : Spot) → c ≢ d → Busy s → roles' d ≡ serves a s → roles d ≡ serves a s
    pub calls : (d : Ptr) → c ≢ d → call_of (roles' d) ≡ call_of (roles d)

  pub Leaves-Turned :
      (c : Ptr) {roles roles' : Ptr → Role} {t u : Board env}
      → Leaves Everyone roles t roles' u
      → Turned c roles t roles' u
  Leaves-Turned c l = record {
    tasks = λ a x at. l.tasks a x at tt;
    spots = λ d a s ne e up. l.spots d a s e tt up;
    runners = λ d a s ne busy e. l.runners d a s busy e tt;
    calls = λ d ne. l.calls d;
  }

  -- The state after a step.
  abbrev pub After :
      CoroViews env → Held → Ptr → Ptr → (Ptr → Role) → Board env → Next → Board env → Type 0
  After coro h p c roles t next u =
      Sound h u
      × (u.sqs ≡ t.sqs)
      × ((roles' : Ptr → Role) × Tenants coro roles' u
          × Turned c roles t roles' u
          × Reaches p c roles' next)

  pub Turned-refl : (c : Ptr) (roles : Ptr → Role) (t : Board env) → Turned c roles t roles t
  Turned-refl c roles t = record {
    tasks = λ a x at. (x, at, refl);
    spots = λ d a s ne e up. e;
    runners = λ d a s ne busy e. e;
    calls = λ d ne. refl;
  }

  module _ (hash : HashLaws env) (coro : CoroViews env) {h : Held}
      (debts : (a : Ptr) → h.debt a ≡ 0) (settled : h.pending ≡ short 0) (en : h.new ≡ none) where
    open coro use {view}

    module _ {roles : Ptr → Role} {t : Board env} (p c : Ptr) (s : Sound h t)
        (T : Tenants coro roles t) (role : roles c ≡ serves p active) where
      -- The coroutine comes to another place, and nothing else happens.
      moved :
          (k : env.Coros) (s' : Spot) (cell : Cell) (next : Next)
          → view k ≡ update (view t.coros) c cell
          → Fills t.hists (serves p s') cell
          → ((d : Ptr) → s' ≡ issuing d → roles d ≡ spare c)
          → ((roles' : Ptr → Role) → roles' c ≡ serves p s' → Reaches p c roles' next)
          → After coro h p c roles t next (record t { coros = k })
      moved k s' cell next v new link reach = (
        coros-Sound k s,
        refl,
        (
          update roles c (serves p s'),
          respot coro T k c p active s' cell role (λ w e asks. absurd (cc)) v new link,
          record {
            tasks = λ a x at. (x, at, refl);
            spots = λ d a s'' ne e up. ground (arith, e, ne);
            runners = λ d a s'' ne busy e. ground (arith, e, ne);
            calls = λ d ne. ap call_of (ground (arith, ne));
          },
          reach (update roles c (serves p s')) (ground arith),
        ),
      )

      pub ends-After : Returns (After coro h p c roles t) (tick c ends t)
      unfolding tick end_now
      ends-After =
          let (made, state, empty) = rw role at (T.filled c) in
          let nonnull = serves-nonnull coro T c p active role in
          returns (
            moved (env.mco_return c t.coros) clear _ (stops no_call) (coro.end c t.coros made state)
              (made, inr refl, empty) (λ d e. absurd (cc)) λ roles' e. (clear, e, tt, refl))

      pub yields-After : Returns (After coro h p c roles t) (tick c yields t)
      unfolding tick yield_now
      yields-After =
          let (made, state, empty) = rw role at (T.filled c) in
          let nonnull = serves-nonnull coro T c p active role in
          returns (
            moved (env.mco_yield c t.coros) clear _ (stops no_call)
              (coro.yield c t.coros made state) (made, inl refl, empty) (λ d e. absurd (cc))
              λ roles' e. (clear, e, tt, refl))

      pub creates-After :
          (fn : Function) (type : ℤ) (args : Option Ptr) (size : ℕ) (rest : Bool → Turn)
          → ((made : Bool) → IsProper (rest made))
          → Returns (After coro h p c roles t) (tick c (creates fn type args size rest) t)
      unfolding tick
      creates-After fn type args size rest proper =
          Returns-bind
            (Returns-Only
              (Returns-Only (task_create-Returns hash fn type args size settled en s)
                (task_create-Keeps fn type args size t.sqs t refl))
              (task_create-Step coro T fn type args size))
            λ made u ((s1, same), (roles', T', l)). returns (
              s1,
              same,
              (
                roles',
                T',
                Leaves-Turned c l,
                (l.spots c p active role tt (λ w e. absurd (cc)), proper made),
              ),
            )

      -- Something is stored, and then the coroutine yields.
      stored_view :
          (item : Stored) (k : env.Coros)
          → view k ≡ update (view t.coros) c (record (view t.coros c) { stored = some item })
          → view (env.mco_yield c k)
            ≡ update
                (view t.coros)
                c
                (record (view t.coros c) { stored = some item; state = suspended })
      stored_view item k v =
          let (made, state, empty) = rw role at (T.filled c) in
          coro.yield c k (rw v (ground (arith, made))) (rw v (ground (arith, state)))
          ∙ rw v (fun_ext λ a. ground arith)

      pushed_stops :
          (b : Bool) (y : RemoteTask) (k : env.Coros)
          → y.blocking ≡ b
          → Answerable y
          → view k
            ≡ update (view t.coros) c (record (view t.coros c) { stored = some (remote_bytes y) })
          → Returns
              (After coro h p c roles t)
              (stop_in c (if b then in_remote else no_call) (record t { coros = k }))
      unfolding yield_now
      pushed_stops true y k e fit v =
          let (made, state, empty) = rw role at (T.filled c) in
          returns (
            moved (env.mco_yield c k) asking _ (stops in_remote) (stored_view (remote_bytes y) k v)
              (made, refl, (y, refl, e, fit)) (λ d e. absurd (cc))
              λ roles' e. (asking, e, tt, refl))
      pushed_stops false y k e fit v =
          let (made, state, empty) = rw role at (T.filled c) in
          returns (
            moved (env.mco_yield c k) passing _ (stops no_call) (stored_view (remote_bytes y) k v)
              (made, refl, (y, refl, e, fit)) (λ d e. absurd (cc))
              λ roles' e. (passing, e, tt, refl))

      pub asks-After :
          (message : String) (args : Option Ptr) (size : ℕ) (blocking : Bool) (rest : Turn)
          → Answerable (new_remote message args size blocking)
          → IsProper rest
          → Returns (After coro h p c roles t) (tick c (asks message args size blocking rest) t)
      unfolding tick remote_issue push yield_now
      asks-After message args size blocking rest fit proper =
          elim (Bool-cases (ltb max_msg_length (len message))) [
            | inl is_long ↦
                rw is_long (returns (s, refl, (roles, T, Turned-refl c roles t, (role, proper))))
            | inr fits ↦
                let (made, state, empty) = rw role at (T.filled c) in
                let nonnull = serves-nonnull coro T c p active role in
                let y : RemoteTask = new_remote message args size blocking in
                let (k, pushed, v) = coro.push c (remote_bytes y) t.coros made empty in
                rw (fits, pushed) (pushed_stops blocking y k refl fit v)
          ]
