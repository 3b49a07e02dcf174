-- ===== src/Coroutines/Objects.antt =====
-- Tasks and remote tasks come and go, and the coroutines keep their roles.
use mathlib.Core.Path.{subst}
use jam_tboard.Common.{
  ℕ, suc, ◌≡◌, ◌≤◌, ◌<◌, ◌⊎◌, refl, ap, true, false, none, some, update, arith, ◌==◌, Bool-cases,
  inl, inr,
}
use jam_tboard.Task.{Ptr, null, Task, RemoteTask}
use jam_tboard.Env.{Env}
use jam_tboard.Env.Views.{CoroViews}
use jam_tboard.Board.{Board}
use jam_tboard.Ownership.Memory.{write_task, write_remote}
use jam_tboard.Ownership.Answering.{Answerable}
use jam_tboard.Coroutines.Moves.{serves-nonnull}
use jam_tboard.Coroutines.Defs.{
  Wait, on_task, on_remote, Spot, clear, issuing, asleep, Role, serves, spare, Asks, by_task,
  by_remote, Tenants,
}

module _ {env : Env} (coro : CoroViews env) where
  module _ {roles : Ptr → Role} {t : Board env} (T : Tenants coro roles t) where
    -- The object of a task that nothing waits to answer is freed.
    pub hide_task :
        (p : Ptr)
        → ((w : Wait) → Asks t.tasks t.remotes p w → ⊥)
        → Tenants coro roles (write_task t p none)
    hide_task p awake = record {
      filled = T.filled;
      kept = T.kept;
      served = λ a x at. T.served a x (ground arith);
      asked = λ a w asks.
          let asks' = fewer asks in
          let (x, at, e) = T.asked a w asks' in
          elim (Bool-cases (p == a)) [
            | inl here ↦ let same : p ≡ a = ground arith in absurd (awake w (rw same asks'))
            | inr other ↦ (x, rw other at, e)
          ];
      answers = T.answers;
      fresh_task = λ a le. ground (arith, T.fresh_task a);
      fresh_remote = T.fresh_remote;
    }
      where
        fewer :
            {a : Ptr} {w : Wait}
            → Asks (update t.tasks p none) t.remotes a w
            → Asks t.tasks t.remotes a w
        fewer (by_task b y at up) = by_task b y (ground arith) up
        fewer (by_remote r y at blocks up) = by_remote r y at blocks up

    pub hide_remote : (r : Ptr) → Tenants coro roles (write_remote t r none)
    hide_remote r = record {
      filled = T.filled;
      kept = T.kept;
      served = T.served;
      asked = λ a w asks. T.asked a w (fewer asks);
      answers = λ q y at. T.answers q y (ground arith);
      fresh_task = T.fresh_task;
      fresh_remote = λ a le. ground (arith, T.fresh_remote a);
    }
      where
        fewer :
            {a : Ptr} {w : Wait}
            → Asks t.tasks (update t.remotes r none) a w
            → Asks t.tasks t.remotes a w
        fewer (by_task b y at up) = by_task b y at up
        fewer (by_remote q y at blocks up) = by_remote q y (ground arith) blocks up

    -- A task comes that has no coroutine yet.
    pub blank_task :
        (p : Ptr) (x : Task)
        → t.next ≤ p
        → x.ctx ≡ null
        → x.parent ≡ none
        → Tenants coro roles (record t { tasks = update t.tasks p (some x); next = suc p })
    blank_task p x new bare orphan = record {
      filled = T.filled;
      kept = T.kept;
      served = λ a y at. elim (Bool-cases (p == a)) [
        | inl here ↦ inl (ground arith)
        | inr other ↦ T.served a y (rw other at at)
      ];
      asked = λ a w asks.
          let (y, at, e) = T.asked a w (fewer asks) in
          elim (Bool-cases (p == a)) [
            | inl here ↦ let none_there = T.fresh_task p new in absurd (ground arith)
            | inr other ↦ (y, rw other at, e)
          ];
      answers = T.answers;
      fresh_task = λ a le. ground (arith, T.fresh_task a);
      fresh_remote = λ a le. T.fresh_remote a (omega arith);
    }
      where
        fewer :
            {a : Ptr} {w : Wait}
            → Asks (update t.tasks p (some x)) t.remotes a w
            → Asks t.tasks t.remotes a w
        fewer (by_task b y at up) = elim (Bool-cases (p == b)) [
          | inl here ↦ let same : x ≡ y = ground arith in absurd (cc)
          | inr other ↦ by_task b y (rw other at at) up
        ]
        fewer (by_remote r y at blocks up) = by_remote r y at blocks up

    -- A task gets a spare context, for which nothing is issued: a new one, or one that has none yet.
    -- If it has a parent, that one is asleep.
    pub adopt :
        (p c : Ptr) (x : Task)
        → roles x.ctx ≡ spare c
        → ((a : Ptr) → roles c ≡ serves a (issuing x.ctx) → ⊥)
        → ((y : Task) → t.tasks p ≡ some y → (y.ctx ≡ null) × (y.parent ≡ x.parent))
        → ((q : Ptr)
            → x.parent ≡ some q
            → (y : Task) × (t.tasks q ≡ some y) × (roles y.ctx ≡ serves q (asleep on_task)))
        → (n : ℕ) → t.next ≤ n
        → p < n
        → Tenants coro
            (update roles x.ctx (serves p clear))
            (record t { tasks = update t.tasks p (some x); next = n })
    adopt p c x is free before up n le lt = record {
      filled = λ d. elim (Bool-cases (x.ctx == d)) [
        | inl here ↦
            let same : x.ctx ≡ d = ground arith in
            let v = rw is at (T.filled x.ctx) in rw here (rw (← same, v) (refl, inl refl, refl))
        | inr other ↦ rw other (T.filled d)
      ];
      kept = λ e b d issued. elim (Bool-cases (x.ctx == e)) [
        | inl here ↦ absurd (cc)
        | inr other ↦
            let was = rw other at issued in
            let kept = T.kept e b d was in
            elim (Bool-cases (x.ctx == d)) [
              | inl same ↦
                  let at : x.ctx ≡ d = ground arith in
                  let self : c ≡ e = cc in absurd (free b (rw (self, at) was))
              | inr apart ↦ rw apart kept
            ]
      ];
      served = λ a y at. elim (Bool-cases (p == a)) [
        | inl here ↦ inr (clear, own a y here at)
        | inr other ↦ (elim (T.served a y (rw other at at)) [
          | inl e ↦ inl e
          | inr (s, e) ↦ inr (s, rw (elsewhere y.ctx a s e) e)
        ])
      ];
      asked = λ a w asks. elim (fewer asks) [
        | inl old ↦ settled a w (T.asked a w old)
        | inr (new, by) ↦ settled a w (rw by (up a new))
      ];
      answers = T.answers;
      fresh_task = λ a ge. ground (arith, T.fresh_task a);
      fresh_remote = λ a ge. T.fresh_remote a (omega arith);
    }
      where
        own :
            (a : Ptr) (y : Task)
            → (p == a) ≡ true
            → update t.tasks p (some x) a ≡ some y
            → update roles x.ctx (serves p clear) y.ctx ≡ serves a clear
        own a y here at =
            let same : p ≡ a = ground arith in
            let object : x ≡ y = ground arith in rw (← object, ← same) (ground arith)

        elsewhere : (d a : Ptr) (s : Spot) → roles d ≡ serves a s → (x.ctx == d) ≡ false
        elsewhere d a s e = elim (Bool-cases (x.ctx == d)) [
          | inl same ↦ let at : roles x.ctx ≡ roles d = ap roles (ground arith) in absurd (cc)
          | inr other ↦ other
        ]

        fewer :
            {a : Ptr} {w : Wait}
            → Asks (update t.tasks p (some x)) t.remotes a w
            → Asks t.tasks t.remotes a w ⊎ ((x.parent ≡ some a) × (w ≡ on_task))
        fewer (by_task b y at up) = elim (Bool-cases (p == b)) [
          | inl here ↦ let same : x ≡ y = ground arith in inr (rw same up, refl)
          | inr other ↦ inl (by_task b y (rw other at at) up)
        ]
        fewer (by_remote r y at blocks up) = inl (by_remote r y at blocks up)

        settled :
            (a : Ptr) (w : Wait)
            → (y : Task) × (t.tasks a ≡ some y) × (roles y.ctx ≡ serves a (asleep w))
            → (y : Task) × (update t.tasks p (some x) a ≡ some y)
              × (update roles x.ctx (serves p clear) y.ctx ≡ serves a (asleep w))
        settled a w (y, at, e) = elim (Bool-cases (p == a)) [
          | inl here ↦
              let same : p ≡ a = ground arith in
              absurd (serves-nonnull coro T y.ctx a (asleep w) e (before y (rw same at)).0)
          | inr other ↦ (y, rw other at, rw (elsewhere y.ctx a (asleep w) e) e)
        ]

    -- A remote task comes; the caller of a blocking one is asleep.
    pub add_remote :
        (r : Ptr) (x : RemoteTask)
        → t.next ≤ r
        → Answerable x
        → ((q : Ptr)
            → x.blocking ≡ true
            → x.calling_task ≡ some q
            → (y : Task) × (t.tasks q ≡ some y) × (roles y.ctx ≡ serves q (asleep on_remote)))
        → Tenants coro roles (record t { remotes = update t.remotes r (some x); next = suc r })
    add_remote r x new fit up = record {
      filled = T.filled;
      kept = T.kept;
      served = T.served;
      asked = λ a w asks. elim (fewer asks) [
        | inl old ↦ T.asked a w old
        | inr (blocks, called, by) ↦ rw by (up a blocks called)
      ];
      answers = λ q y at. elim (Bool-cases (r == q)) [
        | inl here ↦ let same : x ≡ y = ground arith in subst Answerable same fit
        | inr other ↦ T.answers q y (rw other at at)
      ];
      fresh_task = λ a le. T.fresh_task a (omega arith);
      fresh_remote = λ a le. ground (arith, T.fresh_remote a);
    }
      where
        fewer :
            {a : Ptr} {w : Wait}
            → Asks t.tasks (update t.remotes r (some x)) a w
            → Asks t.tasks t.remotes a w
              ⊎ ((x.blocking ≡ true) × (x.calling_task ≡ some a) × (w ≡ on_remote))
        fewer (by_task b y at up) = inl (by_task b y at up)
        fewer (by_remote q y at blocks up) = elim (Bool-cases (r == q)) [
          | inl here ↦ let same : x ≡ y = ground arith in inr (rw same blocks, rw same up, refl)
          | inr other ↦ inl (by_remote q y (rw other at at) blocks up)
        ]
