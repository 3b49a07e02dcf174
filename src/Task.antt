-- ===== src/Task.antt =====
-- The objects of src/tboard.h that tasks are made of, and its constants. A pointer is an address;
-- one that may be NULL is an option.
use Prim.Native.String.{String}
use jam_tboard.Common.{ℕ, Option, Bool, ℤ, pos, negsuc}

abbrev pub Ptr : Type 0
Ptr = ℕ

-- The NULL context, which the program only hands to the coroutine library.
abbrev pub null : Ptr
null = 0

abbrev pub max_tasks : ℕ
max_tasks = 65536

abbrev pub max_secondaries : ℕ
max_secondaries = 10

abbrev pub max_msg_length : ℕ
max_msg_length = 254

-- Task types.
abbrev pub priority_exec : ℤ
priority_exec = negsuc 0

abbrev pub primary_exec : ℤ
primary_exec = pos 0

abbrev pub secondary_exec : ℤ
secondary_exec = pos 1

-- Task ids.
abbrev pub task_id_remote_issued : ℤ
task_id_remote_issued = negsuc 0

abbrev pub task_id_nonblocking : ℤ
task_id_nonblocking = pos 0

abbrev pub task_id_blocking : ℤ
task_id_blocking = pos 1

-- Task statuses; `calloc` leaves 0.
abbrev pub task_initialized : ℕ
task_initialized = 1

abbrev pub task_running : ℕ
task_running = 2

abbrev pub task_completed : ℕ
task_completed = 3

-- `function_t`: a function pointer and the name under which its history is kept.
pub record Function : Type 0 where
  pub fn : ℕ
  pub fn_name : String

-- `context_desc`, less the sizes that only the coroutine library sets and reads.
pub record Desc : Type 0 where
  pub func : ℕ
  pub user_data : Option Ptr

-- `task_t`. `cpu_time` and `yields` are the bit patterns of an `int`.
pub record Task : Type 0 where
  pub id : ℤ
  pub status : ℕ
  pub type : ℤ
  pub cpu_time : ℕ
  pub yields : ℕ
  pub fn : Function
  pub ctx : Ptr
  pub desc : Desc
  pub data_size : ℕ
  pub hist : Option Ptr
  pub parent : Option Ptr

-- `remote_task_t`. `data` is a reserved word, so the field is `payload`.
pub record RemoteTask : Type 0 where
  pub status : ℕ
  pub message : String
  pub payload : Option Ptr
  pub data_size : ℕ
  pub calling_task : Option Ptr
  pub blocking : Bool

-- `mco_state`: what the coroutine library says of a coroutine.
pub data CoroState : Type 0 where
  dead normal running suspended : CoroState

-- What the program pushes to a coroutine's storage: a whole struct, told apart by its size alone.
pub data Stored : Type 0 where
  task_bytes : Task → Stored
  remote_bytes : RemoteTask → Stored

-- The condition variables of a task board.
pub data Cond : Type 0 where
  pcond msg_cond tcond : Cond
  scond : ℕ → Cond
