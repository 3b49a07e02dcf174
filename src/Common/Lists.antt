-- ===== src/Common/Lists.antt =====
-- Lists measured by native numbers, and families `ℕ → A` updated and summed index by index.
use Prim.Native.Nat.{ℕ, zero, suc, ◌+◌, ◌≤◌, ◌<◌}
use mathlib.Core.Path.{◌≡◌, refl}
use mathlib.Core.Bool.{false}
use mathlib.Core.Logic.{inl, inr}
use mathlib.Core.List.{List, [], ◌∷◌, ◌++◌}
use native.Mathlib.Omega.{arith}
use jam_tboard.Common.Tests.{◌==◌, Bool-cases, if◌then◌else◌}

module _ {ℓ} {A : Type ℓ} where
  abbrev pub length : List A → ℕ
  length [] = 0
  length (x ∷ xs) = suc (length xs)

  pub length-append : (xs ys : List A) → length (xs ++ ys) ≡ length xs + length ys
  length-append [] ys = omega arith
  length-append (x ∷ xs) ys = omega (arith, length-append xs ys)

  -- A value of a family at one index.
  abbrev pub update : (ℕ → A) → ℕ → A → ℕ → A
  update f i a j = if i == j then a else f j

-- 1 where the two numbers are the same one.
abbrev pub hit : ℕ → ℕ → ℕ
hit p a = if p == a then 1 else 0

unfoldable pub count : ℕ → List ℕ → ℕ
count a [] = 0
count a (x ∷ xs) = hit x a + count a xs

pub count-append : (a : ℕ) (xs ys : List ℕ) → count a (xs ++ ys) ≡ count a xs + count a ys
unfolding count
count-append a [] ys = omega arith
count-append a (x ∷ xs) ys = omega (arith, count-append a xs ys)

pub count-snoc : (a x : ℕ) (xs : List ℕ) → count a (xs ++ x ∷ []) ≡ count a xs + hit x a
unfolding count
count-snoc a x [] = omega arith
count-snoc a x (y ∷ ys) = omega (arith, count-snoc a x ys)

-- The sum of the numbers below an index.
unfoldable pub sum : (ℕ → ℕ) → ℕ → ℕ
sum g zero = 0
sum g (suc n) = g n + sum g n

sum-same : (g h : ℕ → ℕ) (n : ℕ) → ((j : ℕ) → j < n → h j ≡ g j) → sum h n ≡ sum g n
unfolding sum
sum-same g h zero same = refl
sum-same g h (suc n) same =
    omega (arith, same n (omega arith), sum-same g h n λ j lt. same j (omega arith))

pub sum_nil : (g : ℕ → ℕ) (n : ℕ) → ((j : ℕ) → j < n → g j ≡ 0) → sum g n ≡ 0
unfolding sum
sum_nil g zero nil = refl
sum_nil g (suc n) nil = omega (arith, nil n (omega arith), sum_nil g n λ j lt. nil j (omega arith))

pub sum-ge : (g : ℕ → ℕ) (n k : ℕ) → k < n → g k ≤ sum g n
unfolding sum
sum-ge g zero k lt = absurd (omega arith)
sum-ge g (suc n) k lt = elim (Bool-cases (k == n)) [
  | inl last ↦ ground arith
  | inr other ↦ ground (arith, sum-ge g n k)
]

-- Two families that differ at one index have sums that differ by as much.
sum-change :
    (g h : ℕ → ℕ) (k : ℕ)
    → ((j : ℕ) → (k == j) ≡ false → h j ≡ g j)
    → (n : ℕ) → k < n
    → sum h n + g k ≡ sum g n + h k
unfolding sum
sum-change g h k same zero lt = absurd (omega arith)
sum-change g h k same (suc n) lt = elim (Bool-cases (k == n)) [
  | inl last ↦ ground (arith, sum-same g h n λ j below. same j (ground arith))
  | inr other ↦ ground (arith, same n, sum-change g h k same n)
]

module _ {ℓ} {A : Type ℓ} (w : A → ℕ) where
  -- What the first `n` members of a family weigh.
  abbrev pub total : ℕ → (ℕ → A) → ℕ
  total n f = sum (λ j. w (f j)) n

  -- One member is exchanged.
  pub total-update :
      (n : ℕ) (members : ℕ → A) (k : ℕ) (new : A)
      → k < n
      → w (members k) + total n (update members k new) ≡ w new + total n members
  total-update n members k new lt = ground (
    arith,
    sum-change (λ j. w (members j)) (λ j. w (update members k new j)) k (λ j ne. ground arith) n lt,
  )

  -- A family that grows by one member.
  pub total-push : (n : ℕ) (f : ℕ → A) (a : A) → total (suc n) (update f n a) ≡ total n f + w a
  unfolding sum
  total-push n f a =
      ground (arith, sum-same (λ j. w (f j)) (λ j. w (update f n a j)) n λ j lt. ground arith)

  pub total-eq-zero : (n : ℕ) (f : ℕ → A) → ((i : ℕ) → i < n → w (f i) ≡ 0) → total n f ≡ 0
  total-eq-zero n f nil = sum_nil (λ j. w (f j)) n nil
