-- ===== src/Programs/Collatz/Attempts.antt =====
-- `primary_task` of src/legacy_tests/test2_Collatz.c keeps the memory sound, and gives up on a
-- board that stays full.
use jam_tboard.Common.{
  ℕ, zero, suc, ◌+◌, ◌≤◌, ◌≡◌, refl, Bool, true, false, Option, none, some, List, ◌∷◌, pos, ltb,
  int32, Bool-cases, inl, inr, arith,
}
use jam_tboard.Task.{Ptr, max_tasks, secondary_exec}
use jam_tboard.Env.{Env}
use jam_tboard.Env.Laws.{HashLaws}
use jam_tboard.Board.{Board, free_data}
use jam_tboard.Create.{task_create}
use jam_tboard.Destroy.{free_sized}
use jam_tboard.Ownership.Defs.{Held, short, Sound, Returns, returns}
use jam_tboard.Ownership.Frame.{free_sized-Sound}
use jam_tboard.Ownership.Memory.{Sound-bump}
use jam_tboard.Ownership.Creation.{task_create-Returns}
use jam_tboard.Ownership.Only.{Returns-Only, task_create-false}
use jam_tboard.Programs.Collatz.{
  Collatz, Turn, yields, ended, Primary, trying, created, ending, collatz_iterations,
  secondary_task_fn, attempted, attempt, alloc_number, primary_loop, primary_resume, count_yielded,
}

module _ {env : Env} where
  -- A turn that has a result, with a property.
  pub data Turns (P : Turn Primary → Collatz env → Type 0)
      : Option (Turn Primary × Collatz env) → Type 0 where
    turns : {s : Turn Primary} {u : Collatz env} → P s u → Turns P (some (s, u))

  free_data-Sound : {h : Held} (p : Ptr) {t : Board env} → Sound h t → Sound h (free_data p t)
  unfolding free_sized
  free_data-Sound p s = free_sized-Sound 4 (some p) s

  attempted-Sound :
      {h : Held} (i : ℕ) (p : Ptr) (failed : ℕ) (g : Collatz env) {r : Option (Bool × Board env)}
      → Returns (λ _ t. Sound h t) r
      → Turns (λ _ u. Sound h u.board) (attempted i p failed g r)
  attempted-Sound i p failed g (returns {a = true} s) = turns s
  attempted-Sound i p failed g (returns {a = false} s) = elim (Bool-cases (ltb 30 failed)) [
    | inl e ↦ rw e (turns (free_data-Sound p s))
    | inr e ↦ rw e (turns s)
  ]

  -- No more task can be created.
  abbrev IsFull : Board env → Type 0
  IsFull t = (n : ℕ) × (t.task_count ≡ pos n) × (max_tasks ≤ n)

  -- Whatever sound and full board the other threads leave each time it yields, the task ends after
  -- that many yields, with its number freed and its end marked.
  abbrev pub GivesUp : Held → Ptr → ℕ → Option (Turn Primary × Collatz env) → Type 0
  GivesUp h p zero r =
      Turns
        (λ s u.
          (s ≡ ended)
          × (u.primary_task_complete ≡ true)
          × ((rest : List Ptr) × (u.board.freed ≡ p ∷ rest)))
        r
  GivesUp h p (suc k) r =
      Turns
        (λ s u.
          (state : Primary) × (s ≡ yields state)
          × ((t : Board env)
              → Sound h t
              → IsFull t
              → GivesUp h p k (primary_resume state (record u { board = t }))))
        r

  module _ (hash : HashLaws env) {h : Held} (ep : h.pending ≡ short 0) (en : h.new ≡ none) where
    attempt-Sound :
        (i : ℕ) (p : Ptr) (failed : ℕ) (g : Collatz env)
        → Sound h g.board
        → Turns (λ _ u. Sound h u.board) (attempt i p failed g)
    unfolding attempt
    attempt-Sound i p failed g s =
        attempted-Sound i p failed g
          (task_create-Returns hash secondary_task_fn secondary_exec (some p) 4 ep en s)

    loop-Sound :
        (i : ℕ) (g : Collatz env)
        → Sound h g.board
        → Turns (λ _ u. Sound h u.board) (primary_loop i g)
    unfolding primary_loop
    loop-Sound i g s = elim (Bool-cases (ltb i collatz_iterations)) [
      | inl e ↦ rw e (attempt-Sound i g.board.next 0 (alloc_number (pos i) g) (Sound-bump s))
      | inr e ↦ rw e (turns s)
    ]

    -- Wherever the Collatz program's primary task has yielded, its next turn has a result
    -- and keeps the memory sound. Conditions: the law of the hash table, no count pending
    -- and no entry missing before.
    pub primary_resume-Sound :
        (state : Primary) (g : Collatz env)
        → Sound h g.board
        → Turns (λ _ u. Sound h u.board) (primary_resume state g)
    unfolding primary_resume
    primary_resume-Sound (trying i p failed) g s = attempt-Sound i p (failed + 1) _ s
    primary_resume-Sound (created i) g s = loop-Sound (i + 1) _ s
    primary_resume-Sound ending g s = turns s

    create_full :
        (p : Ptr) (t : Board env)
        → Sound h t
        → IsFull t
        → Returns
            (λ added u. Sound h u × (added ≡ false))
            (task_create secondary_task_fn secondary_exec (some p) 4 t)
    create_full p t s (n, c, ge) =
        Returns-Only (task_create-Returns hash secondary_task_fn secondary_exec (some p) 4 ep en s)
          (task_create-false n secondary_task_fn secondary_exec (some p) 4 t c ge)

    attempted-GivesUp :
        (k i : ℕ) (p : Ptr) (failed : ℕ) (g : Collatz env) {r : Option (Bool × Board env)}
        → k + failed ≡ 31
        → Returns (λ added t. Sound h t × (added ≡ false)) r
        → GivesUp h p k (attempted i p failed g r)
    unfolding free_data primary_resume attempt
    attempted-GivesUp k i p failed g e (returns {a = true} kept) = absurd (ground arith)
    attempted-GivesUp zero i p failed g e (returns {a = false} kept) =
        let last : ltb 30 failed ≡ true = ground arith in rw last (turns (refl, refl, (_, refl)))
    attempted-GivesUp (suc k) i p failed g e (returns {a = false} kept) =
        let more : ltb 30 failed ≡ false = ground arith in
        rw more (
          turns (
            _,
            refl,
            λ t s full.
                attempted-GivesUp k i p (failed + 1)
                  (count_yielded
                    (record g { max_tasks_reached = int32 (g.max_tasks_reached + 1); board = t }))
                  (omega arith) (create_full p t s full),
          ))

    -- On a sound memory and a full board, the first attempt of the Collatz program's
    -- primary task to create a task is followed by exactly 31 yields, whatever sound memory
    -- and full board other threads leave at each of them; after the last one, with 32
    -- attempts made, the task ends, has freed the number that it had allocated and has
    -- marked its end. Conditions: the law of the hash table, no count pending and no entry
    -- missing.
    pub attempt-GivesUp :
        (i : ℕ) (p : Ptr) (g : Collatz env)
        → Sound h g.board
        → IsFull g.board
        → GivesUp h p 31 (attempt i p 0 g)
    unfolding attempt
    attempt-GivesUp i p g s full = attempted-GivesUp 31 i p 0 g refl (create_full p g.board s full)
