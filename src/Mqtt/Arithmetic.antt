-- ===== src/Mqtt/Arithmetic.antt =====
-- What the operators of an arithmetic request stand for, apart from the two `switch` statements of
-- src/dummy_MQTT.c that compute with them.
use jam_tboard.Common.{ℕ, ◌≡◌, ◌≢◌, ◌⊎◌, refl, inl, inr, some, ◌==◌, Bool-cases, arith}
use jam_tboard.Env.{Env}
use jam_tboard.Mqtt.Blocks.{remote_ans}
use jam_tboard.Mqtt.Tasks.{compute}

-- The answer to a request with one of the four operators.
pub data IsAnswer (env : Env) (a b : env.Real) : ℕ → env.Real → Type 0 where
  sum : IsAnswer env a b b'+' (env.real_add a b)
  difference : IsAnswer env a b b'-' (env.real_sub a b)
  product : IsAnswer env a b b'*' (env.real_mul a b)
  quotient : IsAnswer env a b b'/' (env.real_div a b)

-- A byte that is no operator.
abbrev pub IsOther : ℕ → Type 0
IsOther c = (c ≢ b'+') × (c ≢ b'-') × (c ≢ b'*') × (c ≢ b'/')

module _ (env : Env) (a b : env.Real) where
  pub compute-IsAnswer :
      {operator : ℕ} {ans : env.Real}
      → IsAnswer env a b operator ans
      → compute env a operator b ≡ some ans
  unfolding compute
  compute-IsAnswer sum = refl
  compute-IsAnswer difference = refl
  compute-IsAnswer product = refl
  compute-IsAnswer quotient = refl

  -- The number that is left in the struct.
  pub remote_ans-IsAnswer :
      (operator : ℕ) (ans : env.Real)
      → IsAnswer env a b operator (remote_ans env a b operator ans)
        ⊎ (IsOther operator × (remote_ans env a b operator ans ≡ ans))
  unfolding remote_ans
  remote_ans-IsAnswer operator ans = elim (Bool-cases (operator == b'+')) [
    | inl e ↦ let same : operator ≡ b'+' = ground arith in rw same (inl sum)
    | inr e1 ↦ elim (Bool-cases (operator == b'-')) [
      | inl e ↦ let same : operator ≡ b'-' = ground arith in rw same (inl difference)
      | inr e2 ↦ elim (Bool-cases (operator == b'*')) [
        | inl e ↦ let same : operator ≡ b'*' = ground arith in rw same (inl product)
        | inr e3 ↦ elim (Bool-cases (operator == b'/')) [
          | inl e ↦ let same : operator ≡ b'/' = ground arith in rw same (inl quotient)
          | inr e4 ↦
              rw (e1, e2, e3, e4)
                (inr ((ground arith, ground arith, ground arith, ground arith), refl))
        ]
      ]
    ]
  ]
