-- ===== src/Coroutines/Moves.antt =====
-- How a coroutine gets another role, and what the roles need when tasks and remote tasks come and go.
use jam_tboard.Common.{
  ◌≡◌, ◌≢◌, refl, sym, ap, ◌∙◌, true, false, some, update, arith, ◌==◌, Bool-cases, inl, inr,
}
use jam_tboard.Task.{Ptr, null, Task}
use jam_tboard.Env.{Env}
use jam_tboard.Env.Views.{Cell, no_cell, new_cell, CoroViews}
use jam_tboard.Board.{Board}
use jam_tboard.Coroutines.Defs.{
  Wait, Spot, issuing, asleep, Role, unused, serves, spare, Fills, Asks, Tenants,
}

serves-inj :
    {a b : Ptr} {s s' : Spot} {o : Role} → o ≡ serves a s → o ≡ serves b s' → (a ≡ b) × (s ≡ s')
serves-inj e f = (cc, cc)

-- A coroutine that runs a task is no spare one.
pub not_spare :
    (roles : Ptr → Role) {a e : Ptr} {s : Spot} (c d : Ptr)
    → roles c ≡ serves a s
    → roles d ≡ spare e
    → (c == d) ≡ false
not_spare roles c d is kept = elim (Bool-cases (c == d)) [
  | inl same ↦ let at : roles c ≡ roles d = ap roles (ground arith) in absurd (cc)
  | inr other ↦ other
]

module _ {env : Env} (coro : CoroViews env) where
  open coro use {view}

  made-nonnull : (c : Ptr) (k : env.Coros) → (view k c).made ≡ true → c ≢ null
  made-nonnull c k made is =
      let none_made : (view k null).made ≡ false = ap (λ w. w.made) (coro.null_view k) in
      absurd (cc)

  -- The roles and the cells change at one coroutine.
  filled-update :
      (roles : Ptr → Role) (t : Board env) (k : env.Coros) (c : Ptr) (role : Role) (cell : Cell)
      → ((d : Ptr) → Fills t.hists (roles d) (view t.coros d))
      → view k ≡ update (view t.coros) c cell
      → Fills t.hists role cell
      → (d : Ptr) → Fills t.hists (update roles c role d) (view k d)
  filled-update roles t k c role cell filled v new d = elim (Bool-cases (c == d)) [
    | inl e ↦ rw (v, e) new
    | inr e ↦ rw (v, e) (filled d)
  ]

  module _ {roles : Ptr → Role} {t : Board env} (T : Tenants coro roles t) where
    pub serves-nonnull : (c a : Ptr) (s : Spot) → roles c ≡ serves a s → c ≢ null
    serves-nonnull c a s e = made-nonnull c t.coros (rw e at (T.filled c)).0

    pub respot :
        (k : env.Coros) (c a : Ptr) (s s' : Spot) (cell : Cell)
        → roles c ≡ serves a s
        → ((w : Wait) → s ≡ asleep w → Asks t.tasks t.remotes a w → ⊥)
        → view k ≡ update (view t.coros) c cell
        → Fills t.hists (serves a s') cell
        → ((d : Ptr) → s' ≡ issuing d → roles d ≡ spare c)
        → Tenants coro (update roles c (serves a s')) (record t { coros = k })
    respot k c a s s' cell is awake v new link = record {
      filled = filled-update roles t k c (serves a s') cell T.filled v new;
      kept = λ e b d issued. elim (Bool-cases (c == e)) [
        | inl here ↦
            let (same, at) = serves-inj (rw here at issued) refl in
            let kept = link d (sym at) in
            rw (not_spare roles c d is kept) (kept ∙ ap spare (ground arith))
        | inr other ↦
            let kept = T.kept e b d (rw other at issued) in rw (not_spare roles c d is kept) kept
      ];
      served = λ b x at. elim (T.served b x at) [
        | inl e ↦ inl e
        | inr (z, e) ↦ elim (Bool-cases (c == x.ctx)) [
          | inl here ↦
              let (same, _) = serves-inj is (ap roles (ground arith) ∙ e) in
              inr (s', rw here (rw same refl))
          | inr other ↦ inr (z, rw other e)
        ]
      ];
      asked = λ b w asks.
          let (x, at, e) = T.asked b w asks in
          elim (Bool-cases (c == x.ctx)) [
            | inl here ↦
                let (same, was) = serves-inj is (ap roles (ground arith) ∙ e) in
                absurd (awake w was (rw same asks))
            | inr other ↦ (x, at, rw other e)
          ];
      answers = T.answers;
      fresh_task = T.fresh_task;
      fresh_remote = T.fresh_remote;
    }

    pub unmade_unused :
        (o : Role) (cell : Cell) → cell.made ≡ false → Fills t.hists o cell → o ≡ unused
    unmade_unused unused cell e f = refl
    unmade_unused (spare c) cell e f = absurd (cc)
    unmade_unused (serves a s) cell e (f, _, _) = absurd (cc)

    unmade_elsewhere :
        (d c : Ptr) → (view t.coros d).made ≡ false → (roles c ≡ unused → ⊥) → (d == c) ≡ false
    unmade_elsewhere d c new used = elim (Bool-cases (d == c)) [
      | inl same ↦
          let at : roles d ≡ roles c = ap roles (ground arith) in
          absurd (used (sym at ∙ unmade_unused (roles d) (view t.coros d) new (T.filled d)))
      | inr other ↦ other
    ]

    -- An operation that has changed no coroutine.
    pub same_view :
        (k : env.Coros) → view k ≡ view t.coros → Tenants coro roles (record t { coros = k })
    same_view k v = record {
      filled = λ c. rw v (T.filled c);
      kept = T.kept;
      served = T.served;
      asked = T.asked;
      answers = T.answers;
      fresh_task = T.fresh_task;
      fresh_remote = T.fresh_remote;
    }

    -- A new context.
    pub context_made :
        (k : env.Coros) (d e : Ptr)
        → (view t.coros d).made ≡ false
        → view k ≡ update (view t.coros) d new_cell
        → Tenants coro (update roles d (spare e)) (record t { coros = k })
    context_made k d e new v = record {
      filled = filled-update roles t k d (spare e) new_cell T.filled v refl;
      kept = λ f b c issued. elim (Bool-cases (d == f)) [
        | inl here ↦ absurd (cc)
        | inr other ↦
            let kept = T.kept f b c (rw other at issued) in
            rw (unmade_elsewhere d c new λ un. cc) kept
      ];
      served = λ a x at. elim (T.served a x at) [
        | inl e ↦ inl e
        | inr (s, e) ↦ inr (s, rw (unmade_elsewhere d x.ctx new λ un. cc) e)
      ];
      asked = λ a w asks.
          let (x, at, e) = T.asked a w asks in
          (x, at, rw (unmade_elsewhere d x.ctx new λ un. cc) e);
      answers = T.answers;
      fresh_task = T.fresh_task;
      fresh_remote = T.fresh_remote;
    }

    -- A context that is destroyed as soon as it has been made.
    pub context_lost :
        (k : env.Coros) (d : Ptr)
        → (view t.coros d).made ≡ false
        → view k ≡ update (update (view t.coros) d new_cell) d no_cell
        → Tenants coro roles (record t { coros = k })
    context_lost k d new v = record {
      filled = λ c. rw v (elim (Bool-cases (d == c)) [
        | inl here ↦
            let same : roles d ≡ roles c = ap roles (ground arith) in
            rw (here, ← same, unmade_unused (roles d) (view t.coros d) new (T.filled d)) tt
        | inr other ↦ rw other (T.filled c)
      ]);
      kept = T.kept;
      served = T.served;
      asked = T.asked;
      answers = T.answers;
      fresh_task = T.fresh_task;
      fresh_remote = T.fresh_remote;
    }

    -- A coroutine that no live task has and none keeps for its issuing is gone.
    pub context_gone :
        (k : env.Coros) (c : Ptr)
        → view k ≡ update (view t.coros) c no_cell
        → ((a : Ptr) (x : Task) → t.tasks a ≡ some x → x.ctx ≡ c → ⊥)
        → ((e a : Ptr) → roles e ≡ serves a (issuing c) → ⊥)
        → Tenants coro (update roles c unused) (record t { coros = k })
    context_gone k c v left free = record {
      filled = filled-update roles t k c unused no_cell T.filled v tt;
      kept = λ e b d issued. elim (Bool-cases (c == e)) [
        | inl here ↦ absurd (cc)
        | inr other ↦
            let was = rw other at issued in
            elim (Bool-cases (c == d)) [
              | inl same ↦ absurd (free e b (was ∙ ap (λ z. serves b (issuing z)) (ground arith)))
              | inr apart ↦ rw apart (T.kept e b d was)
            ]
      ];
      served = λ a x at. elim (T.served a x at) [
        | inl e ↦ inl e
        | inr (s, e) ↦ inr (s, rw (elsewhere a x at) e)
      ];
      asked = λ a w asks. let (x, at, e) = T.asked a w asks in (x, at, rw (elsewhere a x at) e);
      answers = T.answers;
      fresh_task = T.fresh_task;
      fresh_remote = T.fresh_remote;
    }
      where
        elsewhere : (a : Ptr) (x : Task) → t.tasks a ≡ some x → (c == x.ctx) ≡ false
        elsewhere a x at = elim (Bool-cases (c == x.ctx)) [
          | inl same ↦ absurd (left a x at (ground arith))
          | inr other ↦ other
        ]
