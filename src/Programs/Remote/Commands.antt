-- ===== src/Programs/Remote/Commands.antt =====
-- Every message that src/legacy_tests/test7_blocking_remote_tasks.c sends is one that MQTT_recv of
-- src/dummy_MQTT.c reads.
use jam_tboard.Common.{
  ℕ, zero, suc, ◌+◌, ◌*◌, ◌-◌, ◌||◌, refl, Option, none, ltb, Bytes, ◌%◌, ◌<◌, ◌≤◌, ◌≡◌, some, [],
  ◌∷◌, ◌++◌, ◌==◌, length, length-append, codes, arith, Bool-cases, inl, inr, if◌then◌else◌,
}
use jam_tboard.Env.{Env}
use jam_tboard.Tokens.{space}
use jam_tboard.Tokens.Words.{IsWord}
use jam_tboard.Mqtt.{insert_request, mqtt_recv}
use jam_tboard.Mqtt.Wire.{Wire, print, spawn, math, wire, IsWire, meaning, recv-send}
use jam_tboard.Programs.Remote.{Remote, decimal, operator_at, command, generate_mqtt_message}

-- The request that a command is.
abbrev request : (r0 r1 r2 r3 : ℕ) → Wire
request r0 r1 r2 r3 =
    if r0 % 3 == 0
    then print (codes "'hello world!'" ++ 10 ∷ [])
    else if r0 % 3 == 1
    then math (decimal (r2 % 500)) (operator_at (r1 % 4)) (decimal (r3 % 500))
    else spawn

-- The number that digits stand for, read from the left, with `n` for those before.
abbrev pub read_digits : ℕ → Bytes → Option ℕ
read_digits n [] = some n
read_digits n (c ∷ s) = if ltb c 48 || ltb 57 c then none else read_digits (n * 10 + (c - 48)) s

abbrev pub byte_at : Bytes → ℕ → Option ℕ
byte_at [] i = none
byte_at (c ∷ s) zero = some c
byte_at (c ∷ s) (suc i) = byte_at s i

-- What the random numbers ask for: a greeting, arithmetic on two numbers below 500 with one of the
-- operators, or a task.
abbrev pub IsAsked : (r0 r1 r2 r3 : ℕ) → Wire → Type 0
IsAsked r0 r1 r2 r3 (print s) = (r0 % 3 ≡ 0) × (s ≡ codes "'hello world!'" ++ 10 ∷ [])
IsAsked r0 r1 r2 r3 (math a operator b) =
    (r0 % 3 ≡ 1)
    × (read_digits 0 a ≡ some (r2 % 500))
    × (read_digits 0 b ≡ some (r3 % 500))
    × (byte_at (codes "+-/*") (r1 % 4) ≡ some operator)
IsAsked r0 r1 r2 r3 spawn = r0 % 3 ≡ 2

read_digits-decimal : (n : ℕ) → n < 1000 → read_digits 0 (decimal n) ≡ some n
unfolding decimal
read_digits-decimal n lt = ground arith

byte_at-operators : (n : ℕ) → n < 4 → byte_at (codes "+-/*") n ≡ some (operator_at n)
byte_at-operators zero lt = refl
byte_at-operators (suc zero) lt = refl
byte_at-operators (suc (suc zero)) lt = refl
byte_at-operators (suc (suc (suc zero))) lt = refl
byte_at-operators (suc (suc (suc (suc n)))) lt = absurd (omega (arith, lt))

request-IsAsked : (r0 r1 r2 r3 : ℕ) → IsAsked r0 r1 r2 r3 (request r0 r1 r2 r3)
request-IsAsked r0 r1 r2 r3 = elim (Bool-cases (r0 % 3 == 0)) [
  | inl e ↦ rw e (ground arith, refl)
  | inr e ↦ elim (Bool-cases (r0 % 3 == 1)) [
    | inl e1 ↦
        rw (e, e1)
          (
            ground arith,
            read_digits-decimal (r2 % 500) (omega arith),
            read_digits-decimal (r3 % 500) (omega arith),
            byte_at-operators (r1 % 4) (omega arith),
          )
    | inr e1 ↦ rw (e, e1) (ground arith)
  ]
]

decimal-IsWord : (n : ℕ) → n < 1000 → IsWord (decimal n) × (length (decimal n) ≤ 3)
unfolding decimal
decimal-IsWord n lt = ground arith

request-IsWire : (r0 r1 r2 r3 : ℕ) → IsWire (request r0 r1 r2 r3)
request-IsWire r0 r1 r2 r3 = elim (Bool-cases (r0 % 3 == 0)) [
  | inl e ↦ rw e (omega arith)
  | inr e ↦ elim (Bool-cases (r0 % 3 == 1)) [
    | inl e1 ↦
        let (a, la) = decimal-IsWord (r2 % 500) (omega arith) in
        let (b, lb) = decimal-IsWord (r3 % 500) (omega arith) in
        rw (e, e1)
          (
            omega (
              arith,
              length-append (decimal (r2 % 500))
                  (space ∷ operator_at (r1 % 4) ∷ space ∷ decimal (r3 % 500)),
            ),
            a,
            ground arith,
            b,
          )
    | inr e1 ↦ rw (e, e1) tt
  ]
]

command-wire : (r0 r1 r2 r3 : ℕ) → command r0 r1 r2 r3 ≡ wire (request r0 r1 r2 r3)
unfolding command
command-wire r0 r1 r2 r3 = ground arith

module _ {env : Env} where
  -- Whatever the random numbers are, there is a request that they ask for: the greeting, a
  -- task, or arithmetic with the decimal digits of the two numbers, read from the left, and
  -- the operator at its place in +-/*; the message that the test program's generator sends is
  -- read by the next reading of the pool as this request, and its message to the task board
  -- is inserted; no other message of the pool is touched.
  pub generate-recv :
      (r0 r1 r2 r3 : ℕ) (g : Remote env)
      → (w : Wire) × IsAsked r0 r1 r2 r3 w
        × (mqtt_recv (generate_mqtt_message r0 r1 r2 r3 g).mqtt
            ≡ some (insert_request (meaning env w) g.mqtt))
  unfolding generate_mqtt_message
  generate-recv r0 r1 r2 r3 g = (
    request r0 r1 r2 r3,
    request-IsAsked r0 r1 r2 r3,
    rw (command-wire r0 r1 r2 r3)
        (recv-send (request r0 r1 r2 r3) g.mqtt (request-IsWire r0 r1 r2 r3)),
  )
