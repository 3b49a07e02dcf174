-- ===== src/Coroutines/Yielding.antt =====
-- What the executor of src/executor.c does with a task that has yielded: what the coroutine has
-- stored is taken out and becomes a task or a remote task.
use mathlib.Core.Path.{subst}
use jam_tboard.Common.{
  suc, ◌≡◌, refl, sym, ap, ◌∙◌, true, false, Bool, some, update, arith, ◌==◌, inl, if◌then◌else◌,
  int32, ◌+◌,
}
use jam_tboard.Task.{Ptr, Task, RemoteTask, suspended}
use jam_tboard.Env.{Env}
use jam_tboard.Turns.{no_call, in_remote}
use jam_tboard.Env.Views.{bytes_of, CoroViews}
use jam_tboard.Board.{Board, alloc_task, alloc_remote}
use jam_tboard.Executor.Fetch.{Exec, Slot}
use jam_tboard.Executor.{issue_local, issue_remote, after_yield, on_yield}
use jam_tboard.Ownership.Only.{Only, only, Only-bind}
use jam_tboard.Coroutines.Defs.{
  on_task, on_remote, Spot, clear, asking, passing, issuing, asleep, woken, active, Role, serves,
  spare, call_of, HasRemote, Tenants,
}
use jam_tboard.Coroutines.Frame.{context, context-some, Alike-trans, Alike-Tenants}
use jam_tboard.Coroutines.Moves.{not_spare, respot}
use jam_tboard.Coroutines.Objects.{adopt, add_remote}
use jam_tboard.Coroutines.Likes.{Alike-refl, Only-mono, load_task-Only, rewrite_task}
use jam_tboard.Coroutines.Placing.{
  task_place-Likes, remote_task_place-Likes, reinsert-Likes, count_yield-Likes,
}
use jam_tboard.Coroutines.Steps.{
  Busy, ButFor, Leaves-trans, Alike-Leaves, at_rest, Done, Done-then, Done-after, respot-Leaves,
  adopt-Leaves,
}

-- Where a task is when it has stopped of its own.
abbrev pub HasStopped : Spot → Type 0
HasStopped active = ⊥
HasStopped (asleep w) = ⊥
HasStopped (woken w) = ⊥
HasStopped _ = Unit {0}

module _ {env : Env} (coro : CoroViews env) {roles : Ptr → Role} {t : Board env}
    (T : Tenants coro roles t) (p : Ptr) (x : Task) (at : t.tasks p ≡ some x) where
  open coro use {view}

  issue_local-Step :
      (d : Ptr)
      → roles x.ctx ≡ serves p (issuing d)
      → Only (λ _ u. Done coro p x.ctx roles t u) (issue_local p x.ctx t)
  unfolding issue_local alloc_task
  issue_local-Step d role =
      let c = x.ctx in
      let (made, state, (y, stored, ctx, orphan, known)) = rw role at (T.filled c) in
      let (k, popped, v) = coro.pop_task c y t.coros stored in
      let T1 =
        respot coro T k c p (issuing d) (asleep on_task) _ role (λ w e asks. absurd (cc)) v
          (made, state, refl) (λ e f. absurd (cc)) in
      let l1 =
        respot-Leaves coro {others = ButFor p} {t = t} k c p (issuing d) (asleep on_task) role
          (λ other up. other refl) (λ other busy. busy) refl in
      let z : Task = record y { parent = some p } in
      let kept = T.kept c p d role in
      let apart = not_spare roles c d role kept in
      let spared : update roles c (serves p (asleep on_task)) z.ctx ≡ spare c =
        rw (ctx, apart) kept in
      let empty = T.fresh_task t.next (omega arith) in
      let elsewhere : (d == c) ≡ false = ground (arith, apart) in
      let stays : update (update roles c (serves p (asleep on_task))) z.ctx (serves t.next clear) c
          ≡ serves p (asleep on_task) =
        rw (ctx, elsewhere) (ground arith) in
      let T2 =
        adopt coro T1 t.next c z spared
          (λ a e.
            let self : (c == c) ≡ true = ground arith in let bad = rw self at e in absurd (cc))
          (λ w e. absurd (cc))
          (λ q up. let same : p ≡ q = cc in (x, rw (← same) at, rw (← same) (ground arith)))
          (suc t.next) (omega arith) (omega arith) in
      rw popped (
        Only-mono (task_place-Likes t.next _) λ _ u m.
          Done-then coro
            (
              _,
              T2,
              Leaves-trans l1 (adopt-Leaves coro t.next c (suc t.next) z spared empty),
              at_rest coro p c
                  (update (update roles c (serves p (asleep on_task))) z.ctx (serves t.next clear))
                  (asleep on_task) stays (λ busy. busy),
            )
            m)

  issue_remote-Step :
      (args : Exec) (slot : Slot) (b : Bool) (s : Spot)
      → roles x.ctx ≡ serves p s
      → Busy s
      → call_of (serves p s) ≡ (if b then in_remote else no_call)
      → (let cell = view t.coros x.ctx in
          (cell.made ≡ true) × (cell.state ≡ suspended) × HasRemote b cell.stored)
      → Only (λ _ u. Done coro p x.ctx roles t u) (issue_remote args slot p x.ctx t)
  unfolding issue_remote alloc_remote
  issue_remote-Step args slot true s role busy call (made, state, (y, stored, blocks, fit)) =
      let c = x.ctx in
      let (k, popped, v) = coro.pop_remote c y t.coros stored in
      let z : RemoteTask = record y { calling_task = some p } in
      let T1 =
        respot coro T k c p s (asleep on_remote) _ role (λ w e asks. absurd (subst Busy e busy)) v
          (made, state, refl) (λ e f. absurd (cc)) in
      let l1 =
        respot-Leaves coro {others = ButFor p} {t = t} k c p s (asleep on_remote) role
          (λ other up. other refl) (λ other busy. busy) (sym call) in
      let T2 =
        add_remote coro T1 t.next z (omega arith) fit
          λ q b up. let same : p ≡ q = cc in (x, rw (← same) at, rw (← same) (ground arith)) in
      rw popped (
        Only-bind (remote_task_place-Likes (some t.next) true _) λ _ u m. rw blocks (
          only (
            Done-then coro
              (
                _,
                T2,
                record {
                  tasks = l1.tasks;
                  spots = l1.spots;
                  runners = l1.runners;
                  calls = l1.calls;
                },
                at_rest coro p c (update roles c (serves p (asleep on_remote))) (asleep on_remote)
                    (ground arith) (λ busy. busy),
              )
              m)))
  issue_remote-Step args slot false s role busy call (made, state, (y, stored, blocks, fit)) =
      let c = x.ctx in
      let (k, popped, v) = coro.pop_remote c y t.coros stored in
      let z : RemoteTask = record y { calling_task = some p } in
      let T1 =
        respot coro T k c p s clear _ role (λ w e asks. absurd (subst Busy e busy)) v
          (made, inl state, refl) (λ e f. absurd (cc)) in
      let l1 =
        respot-Leaves coro {others = ButFor p} {t = t} k c p s clear role (λ other up. other refl)
          (λ other busy. busy) (sym call) in
      let T2 = add_remote coro T1 t.next z (omega arith) fit (λ q b up. absurd (cc)) in
      rw popped (
        Only-bind (remote_task_place-Likes (some t.next) true _) λ _ u m. rw blocks (
          Only-mono (reinsert-Likes args slot p u) λ _ w n.
            Done-then coro
              (
                _,
                T2,
                record {
                  tasks = l1.tasks;
                  spots = l1.spots;
                  runners = l1.runners;
                  calls = l1.calls;
                },
                at_rest coro p c (update roles c (serves p clear)) clear (ground arith)
                    (λ busy. busy),
              )
              (Alike-trans m n)))

  stored_remote-Step :
      (args : Exec) (slot : Slot) (b : Bool) (s : Spot)
      → roles x.ctx ≡ serves p s
      → Busy s
      → call_of (serves p s) ≡ (if b then in_remote else no_call)
      → (let cell = view t.coros x.ctx in
          (cell.made ≡ true) × (cell.state ≡ suspended) × HasRemote b cell.stored)
      → Only (λ _ u. Done coro p x.ctx roles t u) (after_yield args slot p x.ctx t)
  unfolding after_yield
  stored_remote-Step args slot b s role busy call (made, state, (y, stored, blocks, fit)) =
      let bytes : env.mco_get_bytes_stored x.ctx t.coros ≡ env.sizeof_remote_task =
        coro.bytes x.ctx t.coros ∙ ap (bytes_of env) stored in
      let no_task : (env.sizeof_remote_task == env.sizeof_task) ≡ false =
        ground (arith, coro.sizes_differ) in
      let same : (env.sizeof_remote_task == env.sizeof_remote_task) ≡ true = ground arith in
      rw (bytes, no_task, same)
        (issue_remote-Step args slot b s role busy call (made, state, (y, stored, blocks, fit)))

  -- The number of bytes in the storage tells the kinds of yield apart.
  after_yield-Step :
      (args : Exec) (slot : Slot) (s : Spot)
      → roles x.ctx ≡ serves p s
      → HasStopped s
      → Only (λ _ u. Done coro p x.ctx roles t u) (after_yield args slot p x.ctx t)
  unfolding after_yield
  after_yield-Step args slot clear role stop =
      let (made, state, empty) = rw role at (T.filled x.ctx) in
      let bytes : env.mco_get_bytes_stored x.ctx t.coros ≡ 0 =
        coro.bytes x.ctx t.coros ∙ ap (bytes_of env) empty in
      let no_task : (0 == env.sizeof_task) ≡ false = ground (arith, coro.task_size) in
      let no_remote : (0 == env.sizeof_remote_task) ≡ false = ground (arith, coro.remote_size) in
      rw (bytes, no_task, no_remote)
        (Only-mono (reinsert-Likes args slot p t) λ _ u m.
          Done-then coro
            (
              roles,
              T,
              Alike-Leaves roles (Alike-refl t),
              at_rest coro p x.ctx roles clear role (λ busy. busy),
            )
            m)
  after_yield-Step args slot (issuing d) role stop =
      let (made, state, (y, stored, ctx, orphan, known)) = rw role at (T.filled x.ctx) in
      let bytes : env.mco_get_bytes_stored x.ctx t.coros ≡ env.sizeof_task =
        coro.bytes x.ctx t.coros ∙ ap (bytes_of env) stored in
      let same : (env.sizeof_task == env.sizeof_task) ≡ true = ground arith in
      rw (bytes, same) (issue_local-Step d role)
  after_yield-Step args slot asking role stop =
      stored_remote-Step args slot true asking role tt refl (rw role at (T.filled x.ctx))
  after_yield-Step args slot passing role stop =
      stored_remote-Step args slot false passing role tt refl (rw role at (T.filled x.ctx))
  after_yield-Step args slot active role stop = absurd stop
  after_yield-Step args slot (asleep w) role stop = absurd stop
  after_yield-Step args slot (woken w) role stop = absurd stop

module _ {env : Env} (coro : CoroViews env) where
  pub on_yield-Step :
      {roles : Ptr → Role} {t : Board env}
      → Tenants coro roles t
      → (p : Ptr) (x : Task) → t.tasks p ≡ some x
      → (args : Exec) (slot : Slot) (s : Spot) → roles x.ctx ≡ serves p s
      → HasStopped s
      → Only (λ _ u. Done coro p x.ctx roles t u) (on_yield args slot p t)
  unfolding on_yield
  on_yield-Step {roles} {t} T p x at args slot s role stop =
      Only-bind (load_task-Only p t) λ y u (there, is). rw is (
        Only-bind
          (rewrite_task p (record y { yields = int32 (y.yields + 1) }) t (ap context (sym there)))
          λ _ v m. Only-bind (count_yield-Likes y v) λ _ w n.
            let all = Alike-trans m n in
            let (z, now, ctx, up) =
              context-some (w.tasks p) y (ap context (sym there) ∙ sym (all.tasks p)) in
            let same : x ≡ y = cc in
            Only-mono
              (subst (λ c. Only (λ _ u. Done coro p c roles w u) (after_yield args slot p c w)) ctx
                (after_yield-Step coro (Alike-Tenants all T) p z now args slot s
                  (ap roles ctx ∙ ap (λ q. roles q.ctx) (sym same) ∙ role) stop))
              λ _ w' step. Done-after coro all (ap (λ o. o.ctx) (sym same)) step)
