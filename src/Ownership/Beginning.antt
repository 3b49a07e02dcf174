-- ===== src/Ownership/Beginning.antt =====
-- The memory that `tboard_create` of src/tboard.c starts with.
use jam_tboard.Common.{
  ℕ, ◌≡◌, ◌≢◌, ◌≤◌, refl, sym, Option, none, some, [], total-eq-zero, count, arith,
}
use jam_tboard.Task.{Ptr, max_secondaries}
use jam_tboard.Env.{Env}
use jam_tboard.Env.Laws.{HashLaws}
use jam_tboard.Board.{Board}
use jam_tboard.Queue.{queue_init}
use jam_tboard.Lifecycle.{new_board, tboard_create}
use jam_tboard.Ownership.Defs.{
  nothing, Sound, parent_refs, caller_refs, root, queued, awaited, mailed, roots,
}

none-is {ℓ} : {A : Type ℓ} {a : A} {o : Option A} → o ≡ some a → o ≡ none → ⊥
none-is e n = cc

module _ {env : Env} where
  pub new_board-Sound :
      HashLaws env → (n : ℕ) (next : Ptr) (k : env.Coros) → Sound nothing (new_board env n next k)
  unfolding new_board queued awaited mailed roots count queue_init
  new_board-Sound hash n next k = record {
    once = λ a. omega (
      arith,
      total-eq-zero (count a) n (λ _. []) (λ i lt. refl),
      total-eq-zero (parent_refs a) next (λ _. none) (λ i lt. refl),
      total-eq-zero (caller_refs a) next (λ _. none) (λ i lt. refl),
    );
    mailed_once = λ r. omega arith;
    fresh_task = λ a le. refl;
    fresh_remote = λ a le. refl;
    older = λ a p x e up. absurd (cc);
    called = λ r x e. absurd (cc);
    counted = (0, refl, sym (total-eq-zero root next (λ _. none) (λ i lt. refl)), omega arith);
    recorded = λ a x e ne. absurd (cc);
    tabled = λ name h e. absurd (none-is e (hash.find-empty name));
    listed = λ a. rw hash.iter-empty refl;
    fresh_hist = λ a le. refl;
  }

  -- With at most MAX_SECONDARIES secondary queues and two struct sizes that differ, a board
  -- is created; it has that many queues, and its memory is sound with nothing held.
  -- Condition: the law of the hash table.
  pub tboard_create-Sound :
      HashLaws env
      → (n : ℕ) (next : Ptr) (k : env.Coros) → n ≤ max_secondaries
      → env.sizeof_remote_task ≢ env.sizeof_task
      → (t : Board env) × (tboard_create env n next k ≡ some t) × Sound nothing t × (t.sqs ≡ n)
  unfolding tboard_create new_board
  tboard_create-Sound hash n next k le ne =
      (new_board env n next k, ground arith, new_board-Sound hash n next k, refl)
