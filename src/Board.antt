-- ===== src/Board.antt =====
-- `tboard_t` of src/tboard.h with the memory that the task board works on, and the operations on
-- that memory: a run that reads or frees a task, remote task or history entry that is not allocated, or
-- fails an assertion, is `none`. Blocks of user data are not objects of this memory.
use Prim.Native.String.{String}
use jam_tboard.Common.{ℕ, suc, Option, none, some, List, ◌∷◌, ℤ, update}
use jam_tboard.Task.{Ptr, Task, RemoteTask, Cond}
use jam_tboard.Env.{Env}
use jam_tboard.Queue.{Queue}

-- `history_t`. `executions` and `completions` are the bit patterns of an `int`.
pub record History (env : Env) : Type 0 where
  pub fn_name : String
  pub mean_t : env.Real
  pub mean_yield : env.Real
  pub yields : env.Real
  pub executions : ℕ
  pub completions : ℕ

pub record Board (env : Env) : Type 0 where
  -- the fields of `tboard_t`
  pub pqueue : Queue Ptr
  pub squeue : ℕ → Queue Ptr
  pub msg_sent : Queue Ptr
  pub msg_recv : Queue Ptr
  pub sqs : ℕ
  pub task_count : ℤ
  pub exec_hist : env.Table
  pub shutdown : ℕ
  pub status : ℕ
  -- the process: `calloc` hands out `next`, and user data that was freed is listed, newest first
  pub tasks : Ptr → Option Task
  pub remotes : Ptr → Option RemoteTask
  pub hists : Ptr → Option (History env)
  pub next : Ptr
  pub coros : env.Coros
  pub draws : ℕ
  pub signals : List Cond
  pub freed : List Ptr

abbrev pub M : Env → Type 0 → Type 0
M env A = Board env → Option (A × Board env)

module _ {env : Env} where
  abbrev pub pure : {A : Type 0} → A → M env A
  pure a s = some (a, s)

  abbrev pub fault : {A : Type 0} → M env A
  fault s = none

  abbrev pub and_then :
      {A B : Type 0} → Option (A × Board env) → (A → M env B) → Option (B × Board env)
  and_then none k = none
  and_then (some (a, s)) k = k a s

  infixl 5 ◌>>=◌ ◌>>◌
  abbrev pub ◌>>=◌ : {A B : Type 0} → M env A → (A → M env B) → M env B
  ◌>>=◌ m k s = and_then (m s) k

  abbrev pub ◌>>◌ : {B : Type 0} → M env (Unit {0}) → M env B → M env B
  m >> k = m >>= λ _. k

  abbrev pub get : M env (Board env)
  get s = some (s, s)

  abbrev pub modify : (Board env → Board env) → M env (Unit {0})
  modify f s = some (tt, f s)

  -- A value that must be there.
  abbrev pub expect : {A : Type 0} → Option A → M env A
  expect none s = none
  expect (some a) s = some (a, s)

  unfoldable pub load_task : Ptr → M env Task
  load_task p s = expect (s.tasks p) s

  unfoldable pub store_task : Ptr → Task → M env (Unit {0})
  store_task p t s = elim (s.tasks p) [
    | none ↦ none
    | some _ ↦ some (tt, record s { tasks = update s.tasks p (some t) })
  ]

  unfoldable pub alloc_task : Task → M env Ptr
  alloc_task t s =
      some (s.next, record s { tasks = update s.tasks s.next (some t); next = suc s.next })

  unfoldable pub free_task : Ptr → M env (Unit {0})
  free_task p s = elim (s.tasks p) [
    | none ↦ none
    | some _ ↦ some (tt, record s { tasks = update s.tasks p none })
  ]

  unfoldable pub load_remote : Ptr → M env RemoteTask
  load_remote p s = expect (s.remotes p) s

  unfoldable pub store_remote : Ptr → RemoteTask → M env (Unit {0})
  store_remote p r s = elim (s.remotes p) [
    | none ↦ none
    | some _ ↦ some (tt, record s { remotes = update s.remotes p (some r) })
  ]

  unfoldable pub alloc_remote : RemoteTask → M env Ptr
  alloc_remote r s =
      some (s.next, record s { remotes = update s.remotes s.next (some r); next = suc s.next })

  unfoldable pub free_remote : Ptr → M env (Unit {0})
  free_remote p s = elim (s.remotes p) [
    | none ↦ none
    | some _ ↦ some (tt, record s { remotes = update s.remotes p none })
  ]

  unfoldable pub load_hist : Ptr → M env (History env)
  load_hist p s = expect (s.hists p) s

  unfoldable pub store_hist : Ptr → History env → M env (Unit {0})
  store_hist p h s = elim (s.hists p) [
    | none ↦ none
    | some _ ↦ some (tt, record s { hists = update s.hists p (some h) })
  ]

  unfoldable pub alloc_hist : History env → M env Ptr
  alloc_hist h s =
      some (s.next, record s { hists = update s.hists s.next (some h); next = suc s.next })

  unfoldable pub free_hist : Ptr → M env (Unit {0})
  free_hist p s = elim (s.hists p) [
    | none ↦ none
    | some _ ↦ some (tt, record s { hists = update s.hists p none })
  ]

  -- `free` of a task's arguments or a remote task's data. It is only listed: a second `free` of the same
  -- data is not seen here.
  unfoldable pub free_data : Ptr → Board env → Board env
  free_data p s = record s { freed = p ∷ s.freed }

  -- `pthread_cond_signal`.
  unfoldable pub signal : Cond → Board env → Board env
  signal c s = record s { signals = c ∷ s.signals }
