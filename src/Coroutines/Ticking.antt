-- ===== src/Coroutines/Ticking.antt =====
-- A task issues a blocking task, and all steps of a task's turn together.
use jam_tboard.Common.{
  ℕ, ◌≡◌, refl, sym, ap, ◌∙◌, fun_ext, Bool, true, false, Option, none, some, ℤ, update, arith,
  ◌==◌, Bool-cases, Option-cases, inl, inr, if◌then◌else◌,
}
use jam_tboard.Task.{Ptr, Function, Task, task_bytes, suspended, task_id_blocking}
use jam_tboard.Env.{Env}
use jam_tboard.Env.Laws.{HashLaws}
use jam_tboard.Env.Views.{bytes_of, CoroViews, views-CoroLaws}
use jam_tboard.Board.{Board, and_then}
use jam_tboard.Create.{new_task, create_context}
use jam_tboard.Issue.{push, push_context, blocking_issue}
use jam_tboard.Turns.{
  in_blocking, Turn, ends, yields, creates, blocks, asks, goes_on, yield_now, stop_in, tick,
}
use jam_tboard.Ownership.Defs.{short, Held, Sound, Returns, returns, Returns-bind}
use jam_tboard.Ownership.Frame.{coros-Sound}
use jam_tboard.Ownership.Only.{Only, only, Only-bind, Returns-Only}
use jam_tboard.Ownership.Issuing.{AfterIssue, blocking_issue-Returns}
use jam_tboard.Coroutines.Defs.{active, issuing, Role, unused, serves, spare, call_of, Tenants}
use jam_tboard.Coroutines.Frame.{Alike, Alike-trans, Alike-Tenants}
use jam_tboard.Coroutines.Likes.{history_record_exec-Likes, count_execution-Likes}
use jam_tboard.Coroutines.Moves.{serves-nonnull, respot, context_made, unmade_unused}
use jam_tboard.Coroutines.Steps.{Alike-Leaves}
use jam_tboard.Coroutines.Depth.{Leads, tick-Leads}
use jam_tboard.Coroutines.Turning.{
  IsProper, Turned, Leaves-Turned, After, ends-After, yields-After, creates-After, asks-After,
}

module _ {env : Env} (coro : CoroViews env) where
  open coro use {view}

  pub Turned-trans :
      {c : Ptr} {r1 r2 r3 : Ptr → Role} {t u v : Board env}
      → Turned c r1 t r2 u
      → Turned c r2 u r3 v
      → Turned c r1 t r3 v
  Turned-trans l m = record {
    tasks = λ a x at.
        let (y, there, ctx) = l.tasks a x at in
        let (z, still, ctx') = m.tasks a y there in (z, still, ctx' ∙ ctx);
    spots = λ d a s ne e up. m.spots d a s ne (l.spots d a s ne e up) up;
    runners = λ d a s ne busy e. l.runners d a s ne busy (m.runners d a s ne busy e);
    calls = λ d ne. m.calls d ne ∙ l.calls d ne;
  }

  -- A new context leaves the other places.
  made-Turned :
      {roles : Ptr → Role} {t : Board env} (c d e : Ptr) (k : env.Coros)
      → roles d ≡ unused
      → Turned c roles t (update roles d (spare e)) (record t { coros = k })
  made-Turned {roles} c d e k was = record {
    tasks = λ a x at. (x, at, refl);
    spots = λ f a s ne at up. elim (Bool-cases (d == f)) [
      | inl here ↦ let same : roles d ≡ roles f = ap roles (ground arith) in absurd (cc)
      | inr other ↦ rw other at
    ];
    runners = λ f a s ne busy at. elim (Bool-cases (d == f)) [
      | inl here ↦ absurd (let is = rw here at at in cc)
      | inr other ↦ rw other at at
    ];
    calls = λ f ne. elim (Bool-cases (d == f)) [
      | inl here ↦
          let same : roles d ≡ roles f = ap roles (ground arith) in
          rw here (ap call_of (sym was ∙ same))
      | inr other ↦ rw other refl
    ];
  }

  -- What blocking_task_create leaves when it goes on to yield, and else.
  abbrev Pushed : Ptr → Ptr → (Ptr → Role) → Board env → Bool → Board env → Type 0
  Pushed p c roles t true u =
      (roles' : Ptr → Role) × (k : env.Coros) × (y : Task) × Tenants coro roles'
        (record u { coros = k })
      × Turned c roles t roles' u
      × (roles' c ≡ serves p active)
      × (roles' y.ctx ≡ spare c)
      × (view u.coros ≡ update (view k) c (record (view k c) { stored = some (task_bytes y) }))
      × (y.parent ≡ none)
  Pushed p c roles t false u = Tenants coro roles u × Turned c roles t roles u

  module _ {roles : Ptr → Role} {t : Board env} (p c : Ptr) (T : Tenants coro roles t)
      (role : roles c ≡ serves p active) where
    context-Pushed :
        (x : Task) (u : Board env)
        → Alike t u
        → x.parent ≡ none
        → Only (Pushed p c roles t) (and_then (create_context x.desc u) (push_context c x))
    unfolding create_context push_context push
    context-Pushed x u m alone =
        let T1 = Alike-Tenants m T in
        let turned = Leaves-Turned c (Alike-Leaves roles m) in
        elim (Option-cases (env.mco_create x.desc u.coros)) [
          | inl failed ↦ rw (failed, create_context) (only (T1, turned))
          | inr ((d, k), made) ↦
              let (ok, new, v) = coro.create x.desc d u.coros k made in
              let was : roles d ≡ unused =
                unmade_unused coro T1 (roles d) (view u.coros d) new (T1.filled d) in
              let apart : (d == c) ≡ false = elim (Bool-cases (d == c)) [
                | inl same ↦ let at : roles d ≡ roles c = ap roles (ground arith) in absurd (cc)
                | inr other ↦ other
              ] in
              let T2 = context_made coro T1 k d c new v in
              let is : update roles d (spare c) c ≡ serves p active = rw apart role in
              let nonnull = serves-nonnull coro T2 c p active is in
              let (up, state, empty) = rw is at (T2.filled c) in
              let y : Task = record x { ctx = d } in
              let (k', pushed, v') = coro.push c (task_bytes y) k up empty in
              rw (made, create_context, pushed)
                (only (
                  update roles d (spare c),
                  k,
                  y,
                  T2,
                  Turned-trans turned (made-Turned c d c k' was),
                  is,
                  ground arith,
                  v',
                  alone,
                ))
        ]

    blocking_issue-Pushed :
        (fn : Function) (type : ℤ) (args : Option Ptr) (size : ℕ)
        → Only (Pushed p c roles t) (blocking_issue (some c) fn type args size t)
    unfolding blocking_issue
    blocking_issue-Pushed fn type args size =
        let x : Task = new_task env task_id_blocking type fn args size in
        Only-bind (history_record_exec-Likes x t) λ h u m.
          Only-bind (count_execution-Likes h u)
            λ _ v n. context-Pushed (record x { hist = some h }) v (Alike-trans m n) refl

  module _ (hash : HashLaws env) {h : Held} (debts : (a : Ptr) → h.debt a ≡ 0)
      (settled : h.pending ≡ short 0) (en : h.new ≡ none) where
    module _ {roles : Ptr → Role} {t : Board env} (p c : Ptr) (s : Sound h t)
        (T : Tenants coro roles t) (role : roles c ≡ serves p active) where
      issued-After :
          (rest : Turn) (issued : Bool) (u : Board env)
          → IsProper rest
          → AfterIssue h c t issued u
          → Pushed p c roles t issued u
          → Returns
              (After coro h p c roles t)
              ((if issued then stop_in c in_blocking else (λ v. some (goes_on rest, v))) u)
      unfolding yield_now
      issued-After rest false u proper (s1, tasks, sqs, known) (T1, turned) =
          returns (s1, sqs, (roles, T1, turned, (role, proper)))
      issued-After rest true u proper (s1, tasks, sqs, known)
            (roles', k, y, T1, turned, is, kept, v, alone) =
          let (made, state, empty) = rw is at (T1.filled c) in
          let nonnull = serves-nonnull coro T1 c p active is in
          let there : (view u.coros c).stored ≡ some (task_bytes y) = rw v (ground arith) in
          let (k', popped, _) = coro.pop_task c y u.coros there in
          let w : view (env.mco_yield c u.coros)
              ≡ update (view k) c
                  (record (view k c) { stored = some (task_bytes y); state = suspended }) =
            coro.yield c u.coros (rw v (ground arith)) (rw v (ground arith))
            ∙ rw v (fun_ext λ a. ground arith) in
          returns (
            coros-Sound (env.mco_yield c u.coros) s1,
            sqs,
            (
              update roles' c (serves p (issuing y.ctx)),
              respot coro T1 (env.mco_yield c u.coros) c p active (issuing y.ctx) _ is
                  (λ w e asks. absurd (cc)) w
                  (made, refl, (y, refl, refl, alone, (known refl).recorded y k' popped))
                  (λ d e. let same : y.ctx ≡ d = cc in rw (← same) kept),
              Turned-trans turned record {
                tasks = λ a x at. (x, at, refl);
                spots = λ d a s'' ne e up. ground (arith, e, ne);
                runners = λ d a s'' ne busy e. ground (arith, e, ne);
                calls = λ d ne. ap call_of (ground (arith, ne));
              },
              (issuing y.ctx, ground arith, tt, refl),
            ),
          )

      within-After :
          (turn : Turn) → IsProper turn → Returns (After coro h p c roles t) (tick c turn t)
      unfolding tick
      within-After ends proper = ends-After hash coro debts settled en p c s T role
      within-After yields proper = yields-After hash coro debts settled en p c s T role
      within-After (creates fn type args size rest) proper =
          creates-After hash coro debts settled en p c s T role fn type args size rest proper
      within-After (blocks fn type args size rest) proper =
          let (made, state, empty) = rw role at (T.filled c) in
          let bytes : env.mco_get_bytes_stored c t.coros ≡ 0 =
            coro.bytes c t.coros ∙ ap (bytes_of env) empty in
          Returns-bind
            (Returns-Only
              (blocking_issue-Returns hash (views-CoroLaws coro) c fn type args size bytes s)
              (blocking_issue-Pushed p c T role fn type args size))
            λ issued u (left, pushed). issued-After rest issued u proper left pushed
      within-After (asks message args size blocking rest) (fit, proper) =
          asks-After hash coro debts settled en p c s T role message args size blocking rest fit
            proper

      pub tick-After :
          (turn : Turn)
          → IsProper turn
          → Returns (λ next u. After coro h p c roles t next u × Leads turn next) (tick c turn t)
      tick-After turn proper = Returns-Only (within-After turn proper) (tick-Leads c turn t)
