-- ===== src/Coroutines/Ending.antt =====
-- What the executor of src/executor.c does with a task that has ended: its coroutine is destroyed,
-- and its parent finds it in its storage.
use mathlib.Core.Path.{subst}
use jam_tboard.Common.{
  ◌≡◌, ◌⊎◌, refl, sym, ap, ◌∙◌, Option, none, some, update, arith, ◌==◌, Bool-cases, inl, inr,
}
use jam_tboard.Task.{Ptr, null, Task, task_bytes, task_completed}
use jam_tboard.Env.{Env}
use jam_tboard.Env.Views.{CoroViews}
use jam_tboard.Board.{Board, load_task}
use jam_tboard.Create.{destroy_context}
use jam_tboard.Destroy.{release_task}
use jam_tboard.Executor.{wake_parent, leave, on_dead}
use jam_tboard.Ownership.Memory.{write_task}
use jam_tboard.Ownership.Only.{Only, only, Only-bind}
use jam_tboard.Coroutines.Defs.{
  Wait, on_task, clear, asleep, woken, Role, unused, serves, call_of, Asks, by_task, Tenants,
}
use jam_tboard.Coroutines.Frame.{
  context, context-some, Alike, Alike-trans, Alike-Tenants, Alike-Asks,
}
use jam_tboard.Coroutines.Moves.{serves-nonnull, respot, context_gone, same_view}
use jam_tboard.Coroutines.Objects.{hide_task}
use jam_tboard.Coroutines.Likes.{
  Only-mono, load_task-Only, free_task-Only, rewrite_task, history_record_exec-Likes,
}
use jam_tboard.Coroutines.Placing.{
  SameObjects-Alike, task_place-Likes, free_sized-same, deinc_concurrent-same,
}
use jam_tboard.Coroutines.Steps.{
  Calm, Done, Done-then, ButFor, Everyone, Leaves, Leaves-trans, Alike-Leaves, Step, Step-Alike,
  Step-then, call-update, respot-Leaves,
}
use jam_tboard.Coroutines.Creating.{recoros}

module _ {env : Env} (coro : CoroViews env) where
  -- The board as it is without the task.
  abbrev pub hide : Ptr → Board env → Board env
  hide p t = write_task t p none

  pub hide-Alike : (p : Ptr) {t u : Board env} → Alike t u → Alike (hide p t) (hide p u)
  hide-Alike p m = record {
    tasks = λ a. elim (Bool-cases (p == a)) [
      | inl here ↦ rw here refl
      | inr other ↦ rw other (m.tasks a)
    ];
    remotes = m.remotes;
    hists = m.hists;
    next = m.next;
    coros = m.coros;
  }

  -- Nothing waits to answer the task, and nothing else waits to answer its parent.
  module _ {t : Board env} (p : Ptr) (x : Task) (free : (w : Wait) → Asks t.tasks t.remotes p w → ⊥)
      (lone : (q : Ptr) (w : Wait)
        → x.parent ≡ some q
        → Asks (update t.tasks p none) t.remotes q w
        → ⊥)
      {roles : Ptr → Role} (T : Tenants coro roles t) (at : t.tasks p ≡ some x) where
    hidden-Tenants : Tenants coro roles (hide p t)
    hidden-Tenants = hide_task coro T p free

    -- The parent of an ended task gets its object.
    wake-Step :
        (q : Ptr) (x' : Task) (y : Task)
        → x.parent ≡ some q
        → t.tasks q ≡ some y
        → (k : env.Coros) × (env.mco_push y.ctx (task_bytes x') t.coros ≡ some k)
          × Step coro Everyone roles (hide p t) (record (hide p t) { coros = k })
    wake-Step q x' y up there =
        let (z, there', role') = T.asked q on_task (by_task p x at up) in
        let same : z ≡ y = cc in
        let role : roles y.ctx ≡ serves q (asleep on_task) = rw (← same) role' in
        let (made, state, empty) = rw role at (T.filled y.ctx) in
        let nonnull = serves-nonnull coro T y.ctx q (asleep on_task) role in
        let (k, pushed, v) = coro.push y.ctx (task_bytes x') t.coros made empty in
        (
          k,
          pushed,
          (
            _,
            respot coro hidden-Tenants k y.ctx q (asleep on_task) (woken on_task) _ role
                (λ w e asks. lone q w up asks) v (made, state, (x', refl)) (λ d e. absurd (cc)),
            respot-Leaves coro {others = Everyone} {t = hide p t} k y.ctx q (asleep on_task)
                (woken on_task) role (λ other up. up on_task refl) (λ other busy. busy) refl,
          ),
        )

    leave-Step :
        (o : Option Ptr) (x' : Task)
        → x.parent ≡ o
        → Only (λ _ u. Step coro Everyone roles (hide p t) (hide p u)) (leave o x' t)
    unfolding leave wake_parent load_task
    leave-Step none x' up = only (
        Step-Alike coro hidden-Tenants (hide-Alike p (SameObjects-Alike (deinc_concurrent-same t))))
    leave-Step (some q) x' up =
        let (y, there, role) = T.asked q on_task (by_task p x at up) in
        let (k, pushed, step) = wake-Step q x' y up there in
        rw (there, pushed)
          (Only-mono (task_place-Likes q (record t { coros = k }))
            λ _ w m. Step-then coro step (hide-Alike p m))

  hidden-Leaves :
      (p : Ptr) (roles : Ptr → Role) (t : Board env) → Leaves (ButFor p) roles t roles (hide p t)
  hidden-Leaves p roles t = record {
    tasks = λ a x at other. (x, ground arith, refl);
    spots = λ e a s at other up. at;
    runners = λ e a s busy at other. at;
    calls = λ c. refl;
  }

  Leaves-ButFor :
      (p : Ptr) {roles roles' : Ptr → Role} {t u : Board env}
      → Leaves Everyone roles t roles' u
      → Leaves (ButFor p) roles t roles' u
  Leaves-ButFor p l = record {
    tasks = λ a x at other. l.tasks a x at tt;
    spots = λ e a s at other up. l.spots e a s at tt up;
    runners = λ e a s busy at other. l.runners e a s busy at tt;
    calls = l.calls;
  }

  -- The coroutine of a task that is not there any more is destroyed.
  destroyed-Step :
      {roles : Ptr → Role} {t : Board env} (p c : Ptr)
      → Tenants coro roles t
      → t.tasks p ≡ none
      → (c ≡ null) ⊎ (roles c ≡ serves p clear)
      → Done coro p c roles t (record t { coros = env.mco_destroy c t.coros })
  destroyed-Step {roles} {t} p c T empty (inl is) = rw is (
    roles,
    same_view coro T (env.mco_destroy null t.coros) (coro.destroy_null t.coros),
    record {
      tasks = λ a x at other. (x, at, refl);
      spots = λ e a s at other up. at;
      runners = λ e a s busy at other. at;
      calls = λ c. refl;
    },
    λ s at busy. serves-nonnull coro T null p s at refl,
  )
  destroyed-Step {roles} {t} p c T empty (inr role) = (
    update roles c unused,
    context_gone coro T (env.mco_destroy c t.coros) c
        (let (made, state, stored) = rw role at (T.filled c) in coro.destroy c t.coros made state)
        (λ a x at is. elim (T.served a x at) [
          | inl e ↦ absurd (serves-nonnull coro T c p clear role (sym is ∙ e))
          | inr (s', e) ↦
              let mine : roles x.ctx ≡ roles c = ap roles is in
              let same : a ≡ p = cc in
              let bad : t.tasks a ≡ none = ap t.tasks same ∙ empty in absurd (cc)
        ])
        (λ e a issued. let kept = T.kept e a c issued in absurd (cc)),
    record {
      tasks = λ a x at other. (x, at, refl);
      spots = λ e a s' at other up. elim (Bool-cases (c == e)) [
        | inl here ↦
            let same : roles c ≡ roles e = ap roles (ground arith) in
            let who : p ≡ a = cc in absurd (other who)
        | inr apart ↦ rw apart at
      ];
      runners = λ e a s' busy at other. elim (Bool-cases (c == e)) [
        | inl here ↦ let bad = rw here at at in absurd (cc)
        | inr apart ↦ rw apart at at
      ];
      calls = call-update roles c unused (ap call_of (sym role));
    },
    λ s at busy. let gone : update roles c unused c ≡ unused = ground arith in absurd (cc),
  )

  release-Step :
      {roles : Ptr → Role} (t : Board env) (p : Ptr) (x : Task)
      → Tenants coro roles (hide p t)
      → (x.ctx ≡ null) ⊎ (roles x.ctx ≡ serves p clear)
      → Only (λ _ u. Done coro p x.ctx roles (hide p t) u) (release_task p x t)
  unfolding release_task destroy_context
  release-Step {roles} t p x T own =
      let gone : (hide p t).tasks p ≡ none = ground arith in
      let m = SameObjects-Alike (free_sized-same x.data_size x.desc.user_data t) in
      Only-mono (free_task-Only p _) λ _ u (_, is).
        Done-then coro (destroyed-Step p x.ctx T gone own)
          (rw is (hide-Alike p (recoros coro (env.mco_destroy x.ctx) m)))

  -- An ended task, for which nothing waits, and whose parent waits for nothing else.
  pub on_dead-Step :
      {roles : Ptr → Role} {t : Board env} (p : Ptr) (x : Task)
      → ((w : Wait) → Asks t.tasks t.remotes p w → ⊥)
      → ((q : Ptr) (w : Wait) → x.parent ≡ some q → Asks (update t.tasks p none) t.remotes q w → ⊥)
      → Tenants coro roles t
      → t.tasks p ≡ some x
      → (x.ctx ≡ null) ⊎ (roles x.ctx ≡ serves p clear)
      → Only (λ _ u. Done coro p x.ctx roles t u) (on_dead p t)
  unfolding on_dead
  on_dead-Step {roles} {t} p x free0 lone0 T at mine =
      Only-bind (load_task-Only p t) λ y u (there, is). rw is (
        Only-bind (history_record_exec-Likes (record y { status = task_completed }) t) λ e u1 m1.
          Only-bind
            (rewrite_task p (record y { status = task_completed; hist = some e }) u1
              (ap context (sym there) ∙ sym (m1.tasks p)))
            λ _ u2 m2.
              let all = Alike-trans m1 m2 in
              let (z, now, ctx, up) =
                context-some (u2.tasks p) y (ap context (sym there) ∙ sym (all.tasks p)) in
              let same : x ≡ y = cc in
              let free : (w : Wait) → Asks u2.tasks u2.remotes p w → ⊥ =
                λ w asks. free0 w (Alike-Asks all asks) in
              let lone : (q : Ptr) (w : Wait)
                  → z.parent ≡ some q
                  → Asks (update u2.tasks p none) u2.remotes q w
                  → ⊥ =
                λ q w child asks.
                  lone0 q w (ap (λ o. o.parent) same ∙ sym up ∙ child)
                    (Alike-Asks (hide-Alike p all) asks) in
              Only-bind (leave-Step p z free lone (Alike-Tenants all T) now y.parent _ up)
                λ _ u3 (roles', T3, l).
                  let own : (y.ctx ≡ null) ⊎ (roles' y.ctx ≡ serves p clear) = elim mine [
                    | inl bare ↦ inl (ap (λ o. o.ctx) (sym same) ∙ bare)
                    | inr role ↦
                        let role' = ap (λ o. roles o.ctx) (sym same) ∙ role in
                        inr (l.spots y.ctx p clear role' tt (λ w e. absurd (cc)))
                  ] in
                  Only-mono (release-Step u3 p _ T3 own) λ _ v (roles'', T4, m, calm). (
                    roles'',
                    T4,
                    Leaves-trans (hidden-Leaves p roles t) (
                        Leaves-trans (Alike-Leaves roles (hide-Alike p all))
                          (Leaves-trans (Leaves-ButFor p l) m)),
                    subst (λ c. Calm coro p c roles'') (ap (λ o. o.ctx) (sym same)) calm,
                  ))
