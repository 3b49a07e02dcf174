-- ===== src/Env.antt =====
-- Code that the program calls and does not hold: the coroutine library minicoro, the hash table
-- uthash, `rand`, and the arithmetic of `double`. `Env` is the operations; what is relied on of
-- them is in the child module.
pub mod Laws
pub mod Views
use Prim.Native.String.{String}
use jam_tboard.Common.{ℕ, Option, List, ℤ}
use jam_tboard.Task.{Ptr, Desc, Task, RemoteTask, CoroState, Stored}

pub record Env : Type 1 where
  -- minicoro: `Coros` is its memory. An operation that does not return MCO_SUCCESS is `none`.
  pub Coros : Type 0
  pub mco_desc_init : ℕ → ℕ → Desc
  pub mco_create : Desc → Coros → Option (Ptr × Coros)
  pub mco_destroy : Ptr → Coros → Coros
  pub mco_status : Ptr → Coros → CoroState
  -- The switch to a coroutine, and what the coroutine itself does to give control back: a yield, or
  -- the return of its function.
  pub mco_resume : Ptr → Coros → Option Coros
  pub mco_yield : Ptr → Coros → Coros
  pub mco_return : Ptr → Coros → Coros
  pub mco_push : Ptr → Stored → Coros → Option Coros
  pub mco_pop_task : Ptr → Coros → Option (Task × Coros)
  pub mco_pop_remote : Ptr → Coros → Option (RemoteTask × Coros)
  pub mco_get_bytes_stored : Ptr → Coros → ℕ
  pub sizeof_task : ℕ
  pub sizeof_remote_task : ℕ
  -- uthash: a table from names to entries.
  pub Table : Type 0
  pub hash_empty : Table
  pub hash_find_str : Table → String → Option Ptr
  pub hash_add_keyptr : Table → String → Ptr → Table
  pub hash_del : Table → Ptr → Table
  pub hash_iter : Table → List Ptr
  -- The result of the n-th call of `rand`.
  pub rand : ℕ → ℕ
  -- `double`.
  pub Real : Type 0
  pub real : ℤ → Real
  pub real_add : Real → Real → Real
  pub real_mul : Real → Real → Real
  pub real_div : Real → Real → Real
  pub real_sub : Real → Real → Real
  pub atof : List ℕ → Real
