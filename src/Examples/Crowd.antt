-- ===== src/Examples/Crowd.antt =====
-- A board with as many ready tasks as one likes.
use jam_tboard.Common.{
  ℕ, zero, suc, ◌≤◌, ◌≡◌, refl, none, some, List, [], ◌∷◌, pos, count, sum, total-eq-zero, ltb,
  ◌==◌, if◌then◌else◌, arith,
}
use jam_tboard.Task.{Ptr, Task, max_tasks, primary_exec, task_initialized}
use jam_tboard.Board.{History, Board}
use jam_tboard.Ownership.Defs.{
  nothing, Sound, parent_refs, caller_refs, root, queued, awaited, mailed, roots,
}
use jam_tboard.Examples.Machine.{machine, no_coroutines}
use jam_tboard.Examples.Boards.{blink}

-- The addresses below `n`.
abbrev below : ℕ → List Ptr
below zero = []
below (suc n) = n ∷ below n

abbrev ready : ℕ → Task
ready n = record {
  id = pos 0;
  status = task_initialized;
  type = primary_exec;
  cpu_time = 0;
  yields = 0;
  fn = blink;
  ctx = 1;
  desc = record { func = 7; user_data = none };
  data_size = 0;
  hist = some n;
  parent = none;
}

abbrev entry : History machine
entry = record {
  fn_name = "blink";
  mean_t = 0;
  mean_yield = 0;
  yields = 0;
  executions = 0;
  completions = 0;
}

-- The tasks are at the addresses below `n`, and their entry is at `n`.
abbrev pub crowd : ℕ → Board machine
crowd n = record {
  pqueue = below n;
  squeue = λ _. [];
  msg_sent = [];
  msg_recv = [];
  sqs = 0;
  task_count = pos n;
  exec_hist = ("blink", n) ∷ [];
  shutdown = 0;
  status = 0;
  tasks = λ a. if ltb a n then some (ready n) else none;
  remotes = λ _. none;
  hists = λ a. if a == n then some entry else none;
  next = suc n;
  coros = no_coroutines;
  draws = 0;
  signals = [];
  freed = [];
}

count-below : (a n : ℕ) → count a (below n) ≡ (if ltb a n then 1 else 0)
unfolding count
count-below a zero = ground arith
count-below a (suc n) = ground (arith, count-below a n)

roots-below : (n k : ℕ) → k ≤ n → sum (λ j. root ((crowd n).tasks j)) k ≡ k
unfolding sum
roots-below n zero le = refl
roots-below n (suc k) le = ground (arith, roots-below n k)

pub crowd-Sound : (n : ℕ) → n ≤ max_tasks → Sound nothing (crowd n)
unfolding queued awaited mailed roots count sum
crowd-Sound n le = record {
  once = λ a. ground (
    arith,
    count-below a n,
    total-eq-zero (parent_refs a) (suc n) (crowd n).tasks (λ j lt. ground arith),
    total-eq-zero (caller_refs a) (suc n) (crowd n).remotes (λ j lt. refl),
  );
  mailed_once = λ r. omega arith;
  fresh_task = λ a after. ground arith;
  fresh_remote = λ a after. refl;
  older = λ a p x e up. absurd (ground arith);
  called = λ r x e. absurd (cc);
  counted = (n, refl, ground (arith, roots-below n n), le);
  recorded = λ a x e new. (n, entry, ground arith, ground arith);
  tabled = λ name h e. (entry, ground arith);
  listed = λ a. ground arith;
  fresh_hist = λ a after. ground arith;
}
