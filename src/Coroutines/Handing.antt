-- ===== src/Coroutines/Handing.antt =====
-- The parent of a blocking task that has ended finds its object, once the executor of
-- src/executor.c has seen to it.
use mathlib.Core.Path.{subst}
use jam_tboard.Common.{
  ℕ, ◌≡◌, ◌≢◌, refl, sym, ap, ◌∙◌, Option, none, some, true, update, arith, ◌==◌, Bool-cases, inl,
  inr,
}
use jam_tboard.Task.{
  Ptr, null, Task, CoroState, task_bytes, task_completed, dead, suspended, normal, running,
}
use jam_tboard.Env.{Env}
use jam_tboard.Env.Views.{CoroViews}
use jam_tboard.Board.{Board, load_task}
use jam_tboard.Create.{destroy_context}
use jam_tboard.Destroy.{release_task}
use jam_tboard.Executor.{wake_parent, leave, on_dead, after_resume, finish}
use jam_tboard.Executor.Fetch.{Exec, Slot}
use jam_tboard.Ownership.Only.{Only, Only-bind, anything}
use jam_tboard.Coroutines.Defs.{on_task, Role, by_task, Tenants}
use jam_tboard.Coroutines.Frame.{context, context-some, Alike-trans, Alike-Tenants}
use jam_tboard.Coroutines.Likes.{
  Only-mono, load_task-Only, free_task-Only, rewrite_task, history_record_exec-Likes,
}
use jam_tboard.Coroutines.Placing.{SameObjects-Alike, task_place-Likes, free_sized-same}

module _ {env : Env} (coro : CoroViews env) where
  open coro use {view}

  -- A live task at this address has a completed task's object in its storage.
  abbrev pub HasObject : Ptr → Board env → Type 0
  HasObject q u =
      (y z : Task) × (u.tasks q ≡ some y)
      × ((view u.coros y.ctx).stored ≡ some (task_bytes z))
      × (z.status ≡ task_completed)

  -- Of a task that has ended, the parent, if it has one.
  abbrev pub Handed : CoroState → Option Ptr → Board env → Type 0
  Handed dead (some q) u = HasObject q u
  Handed dead none u = Unit {0}
  Handed suspended o u = Unit {0}
  Handed normal o u = Unit {0}
  Handed running o u = Unit {0}

  wake_parent-Hands :
      (t : Board env) (q : Ptr) (y x : Task)
      → t.tasks q ≡ some y
      → (view t.coros y.ctx).made ≡ true
      → (view t.coros y.ctx).stored ≡ none
      → Only
          (λ _ u.
            ((z : Task) × (u.tasks q ≡ some z) × (z.ctx ≡ y.ctx))
            × (view u.coros
                ≡ update
                    (view t.coros)
                    y.ctx
                    (record (view t.coros y.ctx) { stored = some (task_bytes x) })))
          (wake_parent q x t)
  unfolding wake_parent load_task
  wake_parent-Hands t q y x at made empty =
      let (k, pushed, v) = coro.push y.ctx (task_bytes x) t.coros made empty in
      rw (at, pushed)
        (Only-mono (task_place-Likes q (record t { coros = k })) λ _ u m.
          let (z, there, ctx, up) =
            context-some (u.tasks q) y (ap context (sym at) ∙ sym (m.tasks q)) in
          ((z, there, ctx), rw m.coros v))

  leave-Hands :
      (t : Board env) (q : Ptr) (y x : Task) (o : Option Ptr)
      → o ≡ some q
      → t.tasks q ≡ some y
      → (view t.coros y.ctx).made ≡ true
      → (view t.coros y.ctx).stored ≡ none
      → Only
          (λ _ u.
            ((z : Task) × (u.tasks q ≡ some z) × (z.ctx ≡ y.ctx))
            × (view u.coros
                ≡ update
                    (view t.coros)
                    y.ctx
                    (record (view t.coros y.ctx) { stored = some (task_bytes x) })))
          (leave o x t)
  unfolding leave
  leave-Hands t q y x none e at made empty = absurd (cc)
  leave-Hands t q y x (some q') e at made empty =
      let same : q' ≡ q = cc in rw same (wake_parent-Hands t q y x at made empty)

  release-Hands :
      (t : Board env) (p q : Ptr) (x y z : Task)
      → p ≢ q
      → x.ctx ≢ y.ctx
      → t.tasks q ≡ some y
      → (view t.coros y.ctx).stored ≡ some (task_bytes z)
      → z.status ≡ task_completed
      → ((x.ctx ≢ null) → ((view t.coros x.ctx).made ≡ true) × ((view t.coros x.ctx).state ≡ dead))
      → Only (λ _ u. HasObject q u) (release_task p x t)
  unfolding release_task destroy_context
  release-Hands t p q x y z other apart at stored done gone =
      let m = free_sized-same x.data_size x.desc.user_data t in
      Only-mono (free_task-Only p _) λ _ u (_, is).
        let coros : u.coros ≡ env.mco_destroy x.ctx t.coros =
          ap (λ w. w.coros) is ∙ ap (env.mco_destroy x.ctx) (SameObjects-Alike m).coros in
        let kept : view (env.mco_destroy x.ctx t.coros) y.ctx ≡ view t.coros y.ctx =
          elim (Bool-cases (x.ctx == null)) [
            | inl bare ↦
                let same : x.ctx ≡ null = ground arith in
                let unchanged : view (env.mco_destroy x.ctx t.coros) ≡ view t.coros =
                  rw same (coro.destroy_null t.coros) in
                ap (λ f. f y.ctx) unchanged
            | inr real ↦
                let (made, state) = gone (ground arith) in
                ap (λ f. f y.ctx) (coro.destroy x.ctx t.coros made (inr state))
                ∙ ground (arith, apart)
          ] in
        (
          y,
          z,
          ap (λ w. w.tasks q) is ∙ (ground (arith, other)) ∙ ap (λ f. f q) m.tasks ∙ at,
          ap (λ k. (view k y.ctx).stored) coros ∙ ap (λ w. w.stored) kept ∙ stored,
          done,
        )

  module _ {roles : Ptr → Role} {t : Board env} (T : Tenants coro roles t) (p : Ptr) (x : Task)
      (at : t.tasks p ≡ some x) (ended : (view t.coros x.ctx).state ≡ dead) where
    -- What an ended task's coroutine is, if there is one.
    ended-made : x.ctx ≢ null → (view t.coros x.ctx).made ≡ true
    ended-made real = elim (T.served p x at) [
      | inl bare ↦ absurd (real bare)
      | inr (s, role) ↦ (rw role at (T.filled x.ctx)).0
    ]

    on_dead-Hands : (q : Ptr) → x.parent ≡ some q → Only (λ _ u. HasObject q u) (on_dead p t)
    unfolding on_dead
    on_dead-Hands q up =
        let (y, there, role) = T.asked q on_task (by_task p x at up) in
        let (made, state, empty) = rw role at (T.filled y.ctx) in
        let apart : x.ctx ≢ y.ctx = λ same. absurd (
          let e : (view t.coros x.ctx).state ≡ (view t.coros y.ctx).state =
            ap (λ c. (view t.coros c).state) same in
          cc) in
        let other : p ≢ q = λ same. absurd (
          let e : t.tasks p ≡ t.tasks q = ap t.tasks same in
          let one : x ≡ y = cc in apart (ap (λ w. w.ctx) one)) in
        Only-bind (load_task-Only p t) λ x0 u (at0, is). rw is (
          let same : x0 ≡ x = cc in
          Only-bind (history_record_exec-Likes (record x0 { status = task_completed }) t) λ e u1 m1.
            let done : Task = record x0 { status = task_completed; hist = some e } in
            Only-bind (rewrite_task p done u1 (ap context (sym at0) ∙ sym (m1.tasks p))) λ _ u2 m2.
              let all = Alike-trans m1 m2 in
              let (y2, now, ctx, _) =
                context-some (u2.tasks q) y (ap context (sym there) ∙ sym (all.tasks q)) in
              let up0 : x0.parent ≡ some q = ap (λ w. w.parent) same ∙ up in
              let made2 : (view u2.coros y2.ctx).made ≡ true = rw (all.coros, ctx) made in
              let empty2 : (view u2.coros y2.ctx).stored ≡ none = rw (all.coros, ctx) empty in
              Only-bind (leave-Hands u2 q y2 done x0.parent up0 now made2 empty2)
                λ _ u3 ((z, still, ctx3), v).
                  let where_to : z.ctx ≡ y.ctx = ctx3 ∙ ctx in
                  let own : x0.ctx ≡ x.ctx = ap (λ w. w.ctx) same in
                  let apart0 : x0.ctx ≢ z.ctx = λ e. apart (sym own ∙ e ∙ where_to) in
                  let apart2 : x0.ctx ≢ y2.ctx = λ e. apart0 (e ∙ sym ctx3) in
                  let put : (view u3.coros z.ctx).stored ≡ some (task_bytes done) =
                    rw (v, ctx3) (ground arith) in
                  let as_before : view u3.coros x0.ctx ≡ view t.coros x.ctx =
                    ap (λ f. f x0.ctx) v
                    ∙ ground (arith, apart2)
                    ∙ ap (λ k. view k x0.ctx) all.coros
                    ∙ ap (view t.coros) own in
                  release-Hands u3 p q done z done other apart0 still put refl λ real. (
                    ap (λ w. w.made) as_before ∙ ended-made (λ e. real (own ∙ e)),
                    ap (λ w. w.state) as_before ∙ ended,
                  ))

  without_parent :
      (state : CoroState) (r : Option (Unit {0} × Board env)) → Only (λ _ u. Handed state none u) r
  without_parent dead r = anything r
  without_parent suspended r = anything r
  without_parent normal r = anything r
  without_parent running r = anything r

  after_resume-Hands :
      {roles : Ptr → Role} {t : Board env}
      → Tenants coro roles t
      → (args : Exec) (slot : Slot) (p : Ptr) (x : Task) → t.tasks p ≡ some x
      → (state : CoroState) → env.mco_status x.ctx t.coros ≡ state
      → (o : Option Ptr) → x.parent ≡ o
      → Only (λ _ u. Handed state o u) (after_resume state args slot p t)
  unfolding after_resume
  after_resume-Hands T args slot p x at state is none up = without_parent state _
  after_resume-Hands {t = t} T args slot p x at dead is (some q) up =
      on_dead-Hands T p x at (sym (coro.status x.ctx t.coros) ∙ is) q up
  after_resume-Hands T args slot p x at suspended is (some q) up = anything _
  after_resume-Hands T args slot p x at normal is (some q) up = anything _
  after_resume-Hands T args slot p x at running is (some q) up = anything _

  pub finish-Hands :
      {roles : Ptr → Role} {t : Board env}
      → Tenants coro roles t
      → (args : Exec) (slot : Slot) (p : Ptr) (x : Task) (start end : ℕ) → t.tasks p ≡ some x
      → Only
          (λ _ u. Handed (env.mco_status x.ctx t.coros) x.parent u)
          (finish args slot p start end t)
  unfolding finish after_resume
  finish-Hands {roles} {t} T args slot p x start end at =
      Only-bind (load_task-Only p t) λ y u (there, is). rw is (
        Only-bind (rewrite_task p _ t (ap context (sym there))) λ _ v m.
          let (z, now, ctx, up) =
            context-some (v.tasks p) y (ap context (sym there) ∙ sym (m.tasks p)) in
          let same : y ≡ x = cc in
          let status : env.mco_status y.ctx v.coros ≡ env.mco_status x.ctx t.coros =
            ap (λ o. env.mco_status o.ctx v.coros) same ∙ ap (env.mco_status x.ctx) m.coros in
          let at_status : env.mco_status z.ctx v.coros ≡ env.mco_status y.ctx v.coros =
            ap (λ c. env.mco_status c v.coros) ctx in
          Only-mono
            (after_resume-Hands (Alike-Tenants m T) args slot p z now (env.mco_status y.ctx v.coros)
              at_status x.parent (up ∙ ap (λ o. o.parent) same))
            λ _ w handed. subst (λ c. Handed c x.parent w) status handed)
