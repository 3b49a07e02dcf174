-- ===== src/Coroutines/Creating.antt =====
-- `task_create` of src/tboard.c gives a new task its own coroutine.
use mathlib.Core.Path.{subst}
use jam_tboard.Common.{
  ℕ, suc, ◌≡◌, refl, sym, ap, ◌∙◌, Bool, true, false, Option, none, some, ℤ, update, arith, ◌==◌,
  if◌then◌else◌, Bool-cases, Option-cases, inl, inr,
}
use jam_tboard.Task.{Ptr, null, Function, Desc, Task, task_id_nonblocking}
use jam_tboard.Env.{Env}
use jam_tboard.Env.Views.{no_cell, CoroViews}
use jam_tboard.Board.{Board, pure, alloc_task, free_task}
use jam_tboard.Create.{
  new_task, create_context, destroy_context, discard_task, start_task, task_create,
}
use jam_tboard.Ownership.Memory.{write_task}
use jam_tboard.Ownership.Only.{Only, only, Only-bind}
use jam_tboard.Coroutines.Defs.{clear, issuing, Role, serves, spare, call_of, Tenants}
use jam_tboard.Coroutines.Frame.{Alike, Alike-trans}
use jam_tboard.Coroutines.Moves.{serves-nonnull, unmade_unused, context_made, context_lost}
use jam_tboard.Coroutines.Objects.{adopt}
use jam_tboard.Coroutines.Likes.{
  Only-mono, Alike-refl, load_task-Only, store_task-Only, free_task-Only,
}
use jam_tboard.Coroutines.Placing.{task_add-Likes}
use jam_tboard.Coroutines.Steps.{call-update, Busy, Everyone, Step, Step-Alike, Step-then}

module _ {env : Env} (coro : CoroViews env) where
  open coro use {view}

  module _ {roles : Ptr → Role} {t : Board env} (T : Tenants coro roles t) (d : Desc) (c : Ptr)
      (k : env.Coros) (made : env.mco_create d t.coros ≡ some (c, k)) where
    -- A new object with the new context.
    task_made :
        (x : Task)
        → x.ctx ≡ c
        → x.parent ≡ none
        → Step coro Everyone roles t
            (record t { tasks = update t.tasks t.next (some x); next = suc t.next; coros = k })
    task_made x is orphan =
        let (nonnull, new, v) = coro.create d c t.coros k made in
        let T1 = context_made coro T k c null new v in
        let was = unmade_unused coro T (roles c) (view t.coros c) new (T.filled c) in
        let empty = T.fresh_task t.next (omega arith) in
        let spared : update roles c (spare null) x.ctx ≡ spare null = rw is (ground arith) in
        (
          update (update roles c (spare null)) x.ctx (serves t.next clear),
          adopt coro T1 t.next null x (rw is (ground arith))
              (λ a e. serves-nonnull coro T1 null a (issuing x.ctx) e refl) (λ y at. absurd (cc))
              (λ q up. absurd (cc)) (suc t.next) (omega arith) (omega arith),
          record {
            tasks = λ a y at other. (y, ground (arith, empty), refl);
            spots = λ e a s at other up. elim (Bool-cases (c == e)) [
              | inl here ↦ let same : roles c ≡ roles e = ap roles (ground arith) in absurd (cc)
              | inr apart ↦ rw (is, apart) at
            ];
            runners = λ e a s busy at other. elim (Bool-cases (c == e)) [
              | inl here ↦
                  let same = rw (is, here) at at in
                  let what : clear ≡ s = cc in absurd (subst Busy (sym what) busy)
              | inr apart ↦ rw (is, apart) at at
            ];
            calls = λ e.
                call-update (update roles c (spare null)) x.ctx (serves t.next clear)
                  (ap call_of (sym spared)) e
                ∙ call-update roles c (spare null) (ap call_of (sym was)) e;
          },
        )

    -- The context has been destroyed.
    task_lost :
        {u : Board env}
        → Alike (record t { coros = env.mco_destroy c k }) u
        → Step coro Everyone roles t u
    task_lost m =
        let (nonnull, new, v) = coro.create d c t.coros k made in
        let gone =
          coro.destroy c k (rw v (ground arith)) (inl (rw v (ground arith)))
          ∙ ap (λ f. update f c no_cell) v in
        Step-then coro
          (
            roles,
            context_lost coro T (env.mco_destroy c k) c new gone,
            record {
              tasks = λ a x at other. (x, at, refl);
              spots = λ e a s at other up. at;
              runners = λ e a s busy at other. at;
              calls = λ c. refl;
            },
          )
          m

  -- The object of a task that could not be used is freed again.
  pub put_away :
      (t : Board env) {u : Board env} (x : Task) (k : env.Coros)
      → t.tasks t.next ≡ none
      → Alike (record t { tasks = update t.tasks t.next (some x); next = suc t.next; coros = k }) u
      → Only (λ _ w. Alike (record t { coros = k }) w) (free_task t.next u)
  put_away t {u} x k empty m = Only-mono (free_task-Only t.next u) λ _ w (_, is). rw is (record {
    tasks = λ a. elim (Bool-cases (t.next == a)) [
      | inl here ↦ let same : t.next ≡ a = ground arith in rw (here, ← same, empty) refl
      | inr other ↦ rw other (m.tasks a ∙ rw other refl)
    ];
    remotes = m.remotes;
    hists = m.hists;
    next = omega (arith, m.next);
    coros = m.coros;
  })

  -- The same is done to the coroutines.
  pub recoros :
      {t u : Board env} (f : env.Coros → env.Coros)
      → Alike t u
      → Alike (record t { coros = f t.coros }) (record u { coros = f u.coros })
  recoros f m = record {
    tasks = m.tasks;
    remotes = m.remotes;
    hists = m.hists;
    next = m.next;
    coros = ap f m.coros;
  }

  -- The new object has been written again.
  pub rewritten :
      (t : Board env) (x z : Task) (k : env.Coros) {v : Board env}
      → v
        ≡ write_task
            (record t { tasks = update t.tasks t.next (some x); next = suc t.next; coros = k })
            t.next
            (some z)
      → Alike (record t { tasks = update t.tasks t.next (some z); next = suc t.next; coros = k }) v
  rewritten t x z k is = rw is (record {
    tasks = λ a. elim (Bool-cases (t.next == a)) [
      | inl here ↦ rw here refl
      | inr other ↦ rw other refl
    ];
    remotes = λ r. refl;
    hists = λ a d e. (d, e);
    next = omega arith;
    coros = refl;
  })

  pub settle :
      {roles : Ptr → Role} {t u : Board env} (T : Tenants coro roles t) (d : Desc) (c : Ptr)
      (k : env.Coros) (x : Task)
      → env.mco_create d t.coros ≡ some (c, k)
      → x.ctx ≡ c
      → x.parent ≡ none
      → Alike (record t { tasks = update t.tasks t.next (some x); next = suc t.next; coros = k }) u
      → (added : Bool)
      → Only
          (λ _ w. Step coro Everyone roles t w)
          ((if added then pure true else discard_task c t.next) u)
  unfolding discard_task destroy_context
  settle T d c k x made is orphan m true =
      only (Step-then coro (task_made T d c k made x is orphan) m)
  settle {t = t} T d c k x made is orphan m false =
      let m' = recoros (env.mco_destroy c) m in
      Only-bind (put_away t x (env.mco_destroy c k) (T.fresh_task t.next (omega arith)) m')
        λ _ w n. only (task_lost T d c k made n)

  pub task_create-Step :
      {roles : Ptr → Role} {t : Board env}
      → Tenants coro roles t
      → (fn : Function) (type : ℤ) (args : Option Ptr) (size : ℕ)
      → Only (λ _ u. Step coro Everyone roles t u) (task_create fn type args size t)
  unfolding task_create alloc_task create_context start_task discard_task destroy_context
  task_create-Step {roles} {t} T fn type args size =
      let x : Task = new_task env task_id_nonblocking type fn args size in
      let empty = T.fresh_task t.next (omega arith) in
      elim (Option-cases (env.mco_create x.desc t.coros)) [
        | inl failed ↦
            rw (failed, create_context)
              (Only-bind (put_away t x t.coros empty (Alike-refl _))
                λ _ u m. only (Step-Alike coro T m))
        | inr ((c, k), made) ↦
            rw (made, create_context)
              (Only-bind (load_task-Only t.next _) λ y u (at, is).
                Only-bind (store_task-Only t.next (record y { ctx = c }) u) λ _ v (_, put).
                  Only-bind (task_add-Likes t.next v) λ added w m.
                    settle T x.desc c k (record y { ctx = c }) made refl
                      (let same : x ≡ y = ground arith in rw (← same) refl)
                      (Alike-trans (rewritten t x _ k (rw is at put)) m) added)
      ]
