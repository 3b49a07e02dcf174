-- ===== src/Programs/Collatz/Steps.antt =====
-- `secondary_task` of src/legacy_tests/test2_Collatz.c takes as many turns as the sequence takes
-- steps.
use jam_tboard.Common.{
  ℕ, zero, suc, ◌<◌, ◌≡◌, refl, ◌↔◌, ◌==◌, Bool-cases, Option-cases, true, false, Option, none,
  some, pos, inl, inr, arith, ltb, int32, ◌+◌, ◌*◌, ◌^◌, ◌%◌, ◌/◌, ◌≢◌, ◌⊎◌, sym, ap,
}
use jam_tboard.Env.{Env}
use jam_tboard.Programs.Collatz.{
  Collatz, Turn, yields, ended, next_x, increment_completion_count, count_yielded, secondary_loop,
  secondary_task, secondary_resume,
}

-- What the 3x+1 sequence has after a number, each a `long`: half of an even one, and one more than three
-- times an odd one.
abbrev pub Follows : ℕ → ℕ → Type 0
Follows x y = (x ≡ 2 * y) ⊎ ((k : ℕ) × (x ≡ 2 * k + 1) × (y ≡ 3 * x + 1) × (y < 2 ^ 63))

-- From `x`, the sequence is at 1 after that many steps, and not before.
pub data Reaches : ℕ → ℕ → Type 0 where
  at_one : Reaches 1 0
  next : {x y k : ℕ} → x ≢ 1 → Follows x y → Reaches y k → Reaches x (suc k)

next_x-Follows : (x y : ℕ) → next_x x ≡ some y → Follows x y
unfolding next_x
next_x-Follows x y e = elim (Bool-cases (x % 2 == 0)) [
  | inl even ↦
      let half : some (x / 2) ≡ some y = rw even at e in
      let same : x / 2 ≡ y = cc in inl (ground arith)
  | inr odd ↦ elim (Bool-cases (ltb (3 * x + 1) (2 ^ 63))) [
    | inl fits ↦
        let there : some (3 * x + 1) ≡ some y = rw (odd, fits) at e in
        let same : 3 * x + 1 ≡ y = cc in
        inr (x / 2, ground arith, sym same, rw (← same) (ground arith))
    | inr over ↦ absurd (let bad : none ≡ some y = rw (odd, over) at e in cc)
  ]
]

Follows-next_x : (x y : ℕ) → Follows x y → next_x x ≡ some y
unfolding next_x
Follows-next_x x y (inl e) =
    let even : (x % 2 == 0) ≡ true = ground arith in rw even (ap some (omega arith))
Follows-next_x x y (inr (k, e, f, lt)) =
    let odd : (x % 2 == 0) ≡ false = ground arith in
    let fits : ltb (3 * x + 1) (2 ^ 63) ≡ true = ground arith in rw (odd, fits) (ap some (sym f))

module _ {env : Env} where
  -- The task returns after that many yields, and leaves the globals `u`.
  pub data Ends (u : Collatz env) : ℕ → Option (Turn (ℕ × ℕ) × Collatz env) → Type 0 where
    now : Ends u 0 (some (ended, u))
    later :
        {k : ℕ} {s : ℕ × ℕ} {g : Collatz env}
        → Ends u k (secondary_resume s g)
        → Ends u (suc k) (some (yields s, g))

  -- The globals after that many yields.
  abbrev pub yielded : ℕ → Collatz env → Collatz env
  yielded zero g = g
  yielded (suc k) g = yielded k (count_yielded g)

  loop-Ends :
      {x k : ℕ} (i : ℕ) (g : Collatz env)
      → Reaches x k
      → Ends (increment_completion_count (yielded k g)) k (secondary_loop x i g)
  unfolding secondary_loop secondary_resume
  loop-Ends i g at_one = now
  loop-Ends {x} i g (next {y = y} ne e r) =
      let off : (x == 1) ≡ false = ground arith in
      let there = Follows-next_x x y e in rw (off, there) (later (loop-Ends _ (count_yielded g) r))

  Ends-ended : {u g : Collatz env} {k : ℕ} → Ends u k (some (ended, g)) → (k ≡ 0) × (u ≡ g)
  Ends-ended now = (refl, refl)

  Ends-yields :
      {u g : Collatz env} {k : ℕ} {s : ℕ × ℕ}
      → Ends u (suc k) (some (yields s, g))
      → Ends u k (secondary_resume s g)
  Ends-yields (later e) = e

  Ends-at_once : {u g : Collatz env} {s : ℕ × ℕ} → Ends u 0 (some (yields s, g)) → ⊥
  Ends-at_once e = elim e [ ]

  Ends-none : {u : Collatz env} {k : ℕ} → Ends u k none → ⊥
  Ends-none e = elim e [ ]

  ends_at_one :
      {u : Collatz env} {k : ℕ} (x : ℕ) (g : Collatz env)
      → (x == 1) ≡ true
      → (k ≡ 0) × (u ≡ increment_completion_count g)
      → Reaches x k × (u ≡ increment_completion_count (yielded k g))
  ends_at_one x g is (nil, same) = let one : x ≡ 1 = ground arith in rw (one, nil) (at_one, same)

  loop-Reaches :
      {u : Collatz env} (k x i : ℕ) (g : Collatz env)
      → Ends u k (secondary_loop x i g)
      → Reaches x k × (u ≡ increment_completion_count (yielded k g))
  unfolding secondary_loop secondary_resume
  loop-Reaches zero x i g ends = elim (Bool-cases (x == 1)) [
    | inl is ↦ ends_at_one x g is (Ends-ended (rw is at ends))
    | inr ne ↦ elim (Option-cases (next_x x)) [
      | inl e ↦ absurd (Ends-none (rw (ne, e) at ends))
      | inr (y, e) ↦ absurd (Ends-at_once (rw (ne, e) at ends))
    ]
  ]
  loop-Reaches (suc k) x i g ends = elim (Bool-cases (x == 1)) [
    | inl is ↦ ends_at_one x g is (Ends-ended (rw is at ends))
    | inr ne ↦ elim (Option-cases (next_x x)) [
      | inl e ↦ absurd (Ends-none (rw (ne, e) at ends))
      | inr (y, e) ↦
          let (r, same) =
            loop-Reaches k y (int32 (i + 1)) (count_yielded g) (Ends-yields (rw (ne, e) at ends)) in
          (next (ground arith) (next_x-Follows x y e) r, same)
    ]
  ]

  -- For a number above 1, the Collatz task returns after a number of yields and leaves some
  -- globals if and only if the 3x+1 sequence of the number first reaches 1 after as many
  -- steps without an overflow, and the globals are those before with each yield and one
  -- completion counted.
  pub secondary_task-Ends :
      (x k : ℕ) (g u : Collatz env)
      → 1 < x
      → Ends u k (secondary_task (pos x) g)
        ↔ (Reaches x k × (u ≡ increment_completion_count (yielded k g)))
  unfolding secondary_task
  secondary_task-Ends x k g u lt =
      let more : ltb 1 x ≡ true = ground arith in
      rw more ((λ ends. loop-Reaches k x 0 g ends), λ (r, e). rw e (loop-Ends 0 g r))
