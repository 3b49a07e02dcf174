-- ===== src/Coroutines/Steps.antt =====
-- What a step leaves of the tasks and the roles that it is not about.
use mathlib.Core.Path.{subst}
use jam_tboard.Common.{
  ◌≡◌, ◌≢◌, refl, sym, ap, ◌∙◌, none, some, update, arith, ◌==◌, Bool-cases, inl, inr,
}
use jam_tboard.Task.{Ptr, Task}
use jam_tboard.Env.{Env}
use jam_tboard.Env.Views.{CoroViews}
use jam_tboard.Board.{Board}
use jam_tboard.Coroutines.Defs.{
  Wait, Spot, clear, asleep, woken, Role, serves, spare, call_of, Tenants,
}
use jam_tboard.Coroutines.Frame.{context, context-some, Alike, Alike-Tenants}

abbrev pub Awake : Spot → Type 0
Awake s = (w : Wait) → s ≡ asleep w → ⊥

abbrev pub Everyone : Ptr → Type 0
Everyone a = Unit {0}

-- At work, or stopped by the task itself with its executor still to see to it.
abbrev pub Busy : Spot → Type 0
Busy clear = ⊥
Busy (asleep w) = ⊥
Busy (woken w) = ⊥
Busy _ = Unit {0}

-- Everyone but the task that acts.
abbrev pub ButFor : Ptr → Ptr → Type 0
ButFor p a = p ≢ a

pub call-update :
    (roles : Ptr → Role) (c : Ptr) (role : Role)
    → call_of role ≡ call_of (roles c)
    → (d : Ptr) → call_of (update roles c role d) ≡ call_of (roles d)
call-update roles c role same d = elim (Bool-cases (c == d)) [
  | inl here ↦ rw here (same ∙ ap (λ e. call_of (roles e)) (ground arith))
  | inr other ↦ rw other refl
]

module _ {env : Env} where
  -- The tasks that are meant stay, with their contexts, and those that are not asleep where they are.
  pub record Leaves (others : Ptr → Type 0) (roles : Ptr → Role) (t : Board env)
      (roles' : Ptr → Role) (u : Board env) : Type 0 where
    pub tasks :
        (a : Ptr) (x : Task)
        → t.tasks a ≡ some x
        → others a
        → (y : Task) × (u.tasks a ≡ some y) × (y.ctx ≡ x.ctx)
    pub spots :
        (c a : Ptr) (s : Spot) → roles c ≡ serves a s → others a → Awake s → roles' c ≡ serves a s
    pub runners :
        (c a : Ptr) (s : Spot) → Busy s → roles' c ≡ serves a s → others a → roles c ≡ serves a s
    pub calls : (c : Ptr) → call_of (roles' c) ≡ call_of (roles c)

  pub Leaves-trans :
      {others : Ptr → Type 0} {r1 r2 r3 : Ptr → Role} {t u v : Board env}
      → Leaves others r1 t r2 u
      → Leaves others r2 u r3 v
      → Leaves others r1 t r3 v
  Leaves-trans l m = record {
    tasks = λ a x at other.
        let (y, there, ctx) = l.tasks a x at other in
        let (z, then, ctx') = m.tasks a y there other in (z, then, ctx' ∙ ctx);
    spots = λ c a s e other up. m.spots c a s (l.spots c a s e other up) other up;
    runners = λ c a s busy e other. l.runners c a s busy (m.runners c a s busy e other) other;
    calls = λ c. m.calls c ∙ l.calls c;
  }

  pub Alike-Leaves :
      {others : Ptr → Type 0} (roles : Ptr → Role) {t u : Board env}
      → Alike t u
      → Leaves others roles t roles u
  Alike-Leaves roles {t} {u} m = record {
    tasks = λ a x at other.
        let (y, there, ctx, up) =
          context-some (u.tasks a) x (ap context (sym at) ∙ sym (m.tasks a)) in
        (y, there, ctx);
    spots = λ c a s e other up. e;
    runners = λ c a s busy e other. e;
    calls = λ c. refl;
  }

  module _ (coro : CoroViews env) where
    -- A board after a step, with its roles.
    abbrev pub Step : (others : Ptr → Type 0) → (Ptr → Role) → Board env → Board env → Type 0
    Step others roles t u =
        (roles' : Ptr → Role) × Tenants coro roles' u × Leaves others roles t roles' u

    pub Step-Alike :
        {others : Ptr → Type 0} {roles : Ptr → Role} {t u : Board env}
        → Tenants coro roles t
        → Alike t u
        → Step others roles t u
    Step-Alike {roles = roles} T m = (roles, Alike-Tenants m T, Alike-Leaves roles m)

    -- Another step, and then a change that does not matter.
    pub Step-then :
        {others : Ptr → Type 0} {roles : Ptr → Role} {t u v : Board env}
        → Step others roles t u
        → Alike u v
        → Step others roles t v
    Step-then (roles', T, l) m = (roles', Alike-Tenants m T, Leaves-trans l (Alike-Leaves roles' m))

    -- A change that does not matter, and then a step.
    pub Step-after :
        {others : Ptr → Type 0} {roles : Ptr → Role} {t u v : Board env}
        → Alike t u
        → Step others roles u v
        → Step others roles t v
    Step-after {roles = roles} m (roles', T, l) = (roles', T, Leaves-trans (Alike-Leaves roles m) l)

    pub Step-step :
        {others : Ptr → Type 0} {roles : Ptr → Role} {t u v : Board env}
        → Step others roles t u
        → ((roles' : Ptr → Role) → Tenants coro roles' u → Step others roles' u v)
        → Step others roles t v
    Step-step (roles', T, l) next =
        let (roles'', T', m) = next roles' T in (roles'', T', Leaves-trans l m)

    -- A coroutine that is at work for the acting task, or that sleeps, is at another place.
    pub respot-Leaves :
        {others : Ptr → Type 0} {roles : Ptr → Role} {t : Board env} (k : env.Coros) (c a : Ptr)
        (s s' : Spot)
        → roles c ≡ serves a s
        → (others a → Awake s → ⊥)
        → (others a → Busy s' → ⊥)
        → call_of (serves a s') ≡ call_of (serves a s)
        → Leaves others roles t (update roles c (serves a s')) (record t { coros = k })
    respot-Leaves {roles = roles} k c a s s' is own idle call = record {
      tasks = λ b x at other. (x, at, refl);
      spots = λ d b s'' e other up. elim (Bool-cases (c == d)) [
        | inl here ↦
            let same : roles c ≡ roles d = ap roles (ground arith) in
            let who : a ≡ b = cc in
            let what : s ≡ s'' = cc in absurd (own (rw who other) (rw what up))
        | inr elsewhere ↦ rw elsewhere e
      ];
      runners = λ d b s'' busy e other. elim (Bool-cases (c == d)) [
        | inl here ↦
            let at = rw here at e in
            let who : a ≡ b = cc in
            let what : s' ≡ s'' = cc in absurd (idle (rw who other) (rw what busy))
        | inr elsewhere ↦ rw elsewhere at e
      ];
      calls = call-update roles c (serves a s') (call ∙ ap call_of (sym is));
    }

    -- A spare context goes to a new task.
    pub adopt-Leaves :
        {others : Ptr → Type 0} {roles : Ptr → Role} {t : Board env} (p c n : Ptr) (x : Task)
        → roles x.ctx ≡ spare c
        → t.tasks p ≡ none
        → Leaves others roles t
            (update roles x.ctx (serves p clear))
            (record t { tasks = update t.tasks p (some x); next = n })
    adopt-Leaves {roles = roles} p c n x is empty = record {
      tasks = λ a y at other. (y, ground (arith, empty), refl);
      spots = λ e a s at other up. elim (Bool-cases (x.ctx == e)) [
        | inl here ↦ let same : roles x.ctx ≡ roles e = ap roles (ground arith) in absurd (cc)
        | inr apart ↦ rw apart at
      ];
      runners = λ e a s busy at other. elim (Bool-cases (x.ctx == e)) [
        | inl here ↦
            let same = rw here at at in
            let what : clear ≡ s = cc in absurd (subst Busy (sym what) busy)
        | inr apart ↦ rw apart at at
      ];
      calls = call-update roles x.ctx (serves p clear) (ap call_of (sym is));
    }

    -- The step of a task's executor: in the end its coroutine is not busy for it.
    abbrev pub Calm : Ptr → Ptr → (Ptr → Role) → Type 0
    Calm p c roles = (s : Spot) → roles c ≡ serves p s → Busy s → ⊥

    abbrev pub Done : Ptr → Ptr → (Ptr → Role) → Board env → Board env → Type 0
    Done p c roles t u =
        (roles' : Ptr → Role) × Tenants coro roles' u
        × Leaves (ButFor p) roles t roles' u
        × Calm p c roles'

    pub at_rest :
        (p c : Ptr) (roles : Ptr → Role) (s : Spot)
        → roles c ≡ serves p s
        → (Busy s → ⊥)
        → Calm p c roles
    at_rest p c roles s is idle s' e busy =
        let same : s ≡ s' = cc in idle (subst Busy (sym same) busy)

    pub Done-then :
        {p c : Ptr} {roles : Ptr → Role} {t u v : Board env}
        → Done p c roles t u
        → Alike u v
        → Done p c roles t v
    Done-then (roles', T, l, calm) m =
        (roles', Alike-Tenants m T, Leaves-trans l (Alike-Leaves roles' m), calm)

    pub Done-after :
        {p c d : Ptr} {roles : Ptr → Role} {t u v : Board env}
        → Alike t u
        → c ≡ d
        → Done p c roles u v
        → Done p d roles t v
    Done-after {p} {roles = roles} m same (roles', T, l, calm) =
        (roles', T, Leaves-trans (Alike-Leaves roles m) l, subst (λ z. Calm p z roles') same calm)
