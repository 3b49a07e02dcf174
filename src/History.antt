-- ===== src/History.antt =====
-- src/history.c: the execution history, one entry for each function name. The entries live in the
-- process's memory; the hash table maps names to them.
use Prim.Native.String.{String}
use jam_tboard.Common.{
  ℕ, ◌+◌, ◌-◌, ◌^◌, Option, none, some, List, [], ◌∷◌, ℤ, pos, negsuc, int32, ltb, ◌==◌,
  if◌then◌else◌,
}
use jam_tboard.Task.{Ptr, Task, task_completed}
use jam_tboard.Env.{Env}
use jam_tboard.Board.{
  History, Board, M, pure, ◌>>=◌, ◌>>◌, modify, load_hist, store_hist, alloc_hist, free_hist,
}

-- The `int` that a bit pattern stands for.
abbrev pub signed32 : ℕ → ℤ
signed32 n = if ltb n (2 ^ 31) then pos n else negsuc (2 ^ 32 - 1 - n)

-- A mean of `n` values with one more value `x`, in `double`.
abbrev pub new_mean : (env : Env) → env.Real → ℕ → ℕ → env.Real
new_mean env mean n x =
    env.real_div (env.real_add (env.real_mul mean (env.real (signed32 n))) (env.real (signed32 x)))
      (env.real (signed32 (int32 (n + 1))))

module _ {env : Env} where
  open env use {real, hash_find_str, hash_add_keyptr, hash_del}

  -- What `calloc` and the assignments after it leave.
  abbrev pub new_entry : String → History env
  new_entry name = record {
    fn_name = name;
    mean_t = real (pos 0);
    mean_yield = real (pos 0);
    yields = real (pos 0);
    executions = 0;
    completions = 0;
  }

  -- The entry after one more completion of `task`.
  unfoldable pub completed_entry : History env → Task → History env
  completed_entry h task = record h {
    mean_t = new_mean env h.mean_t h.completions task.cpu_time;
    mean_yield = new_mean env h.mean_yield h.completions task.yields;
    completions = int32 (h.completions + 1);
  }

  unfoldable pub add_entry : String → M env Ptr
  add_entry name = do
    h ← alloc_hist (new_entry name)
    modify λ s. record s { exec_hist = hash_add_keyptr s.exec_hist name h }
    pure h

  -- The result is what `*hist` holds in the end.
  unfoldable pub history_record_exec : Task → M env Ptr
  unfolding add_entry
  history_record_exec task s =
      (do
        h ← (elim (hash_find_str s.exec_hist task.fn.fn_name) [
          | none ↦ add_entry task.fn.fn_name
          | some h ↦ pure h
        ])
        if task.status == task_completed
            then (do e ← load_hist h; store_hist h (completed_entry e task); pure h)
            else pure h)
        s

  unfoldable pub history_fetch_exec : String → Board env → Option Ptr
  history_fetch_exec name t = hash_find_str t.exec_hist name

  -- `task->hist->executions += 1`, which follows each first record.
  unfoldable pub count_execution : Ptr → M env (Unit {0})
  count_execution h = do
    e ← load_hist h
    store_hist h (record e { executions = int32 (e.executions + 1) })

  unfoldable pub destroy_entries : List Ptr → M env (Unit {0})
  destroy_entries [] = pure tt
  destroy_entries (h ∷ hs) = do
    modify λ s. record s { exec_hist = hash_del s.exec_hist h }
    free_hist h
    destroy_entries hs

  unfoldable pub history_destroy : M env (Unit {0})
  history_destroy s = destroy_entries (env.hash_iter s.exec_hist) s

  -- The records that are printed, in the table's order.
  unfoldable pub print_entries : List Ptr → M env (List (History env))
  print_entries [] = pure []
  print_entries (h ∷ hs) = do entry ← load_hist h; rest ← print_entries hs; pure (entry ∷ rest)

  unfoldable pub history_print_records : M env (List (History env))
  history_print_records s = print_entries (env.hash_iter s.exec_hist) s
