-- ===== src/Ownership/Defs.antt =====
-- References counted, and the invariant of the process's memory.
use Prim.Native.String.{String}
use jam_tboard.Common.{
  ℕ, ◌+◌, ◌-◌, ◌≤◌, ◌<◌, ◌≡◌, Option, none, some, ℤ, pos, hit, count, total, if◌then◌else◌,
}
use jam_tboard.Task.{Ptr, Stored, Task, RemoteTask, max_tasks}
use jam_tboard.Env.{Env}
use jam_tboard.Board.{History, Board, M, and_then}

abbrev pub opt_hit : Option Ptr → ℕ → ℕ
opt_hit none a = 0
opt_hit (some p) a = hit p a

abbrev pub live {ℓ} : {A : Type ℓ} → Option A → ℕ
live none = 0
live (some _) = 1

-- The references to `a` from a task object, and from a remote task object.
abbrev pub parent_refs : Ptr → Option Task → ℕ
parent_refs a none = 0
parent_refs a (some x) = opt_hit x.parent a

abbrev pub caller_refs : Ptr → Option RemoteTask → ℕ
caller_refs a none = 0
caller_refs a (some r) = if r.blocking then opt_hit r.calling_task a else 0

-- A task that was not issued by another one.
abbrev pub root : Option Task → ℕ
root none = 0
root (some x) = 1 - live x.parent

-- The count of concurrent tasks against the live root tasks: short of them by so many, or of no
-- account any more, as `tboard_destroy` frees tasks without counting.
pub data Tally : Type 0 where
  short : ℕ → Tally
  closed : Tally

-- The tally while a root task comes (`grown` is 1) or goes (`gone` is 1).
abbrev pub Shifts : (gone grown : ℕ) → Tally → Tally → Type 0
Shifts gone grown (short k) (short k') = k' + gone ≡ k + grown
Shifts gone grown closed closed = Unit {0}
Shifts gone grown _ _ = ⊥

-- The count `c` against `r` root tasks; MAX_TASKS bounds it.
abbrev pub IsTallied : Tally → ℤ → ℕ → Type 0
IsTallied (short k) c r = (n : ℕ) × (c ≡ pos n) × (n + k ≡ r) × (n ≤ max_tasks)
IsTallied closed c r = Unit {0}

-- What the threads hold between two accesses to the board: references to tasks and remote tasks,
-- tasks that are referred to once too often for a moment, root tasks that are not counted yet or
-- no more, and a task that has no history entry yet.
pub record Held : Type 0 where
  pub hand : Ptr → ℕ
  pub debt : Ptr → ℕ
  pub rhand : Ptr → ℕ
  pub pending : Tally
  pub new : Option Ptr

abbrev pub nothing : Held
nothing = record { hand = λ _. 0; debt = λ _. 0; rhand = λ _. 0; pending = short 0; new = none }

-- The same, with `p` in hand, or in debt.
abbrev pub with_task : Ptr → Held → Held
with_task p h = record h { hand = λ a. h.hand a + hit p a }

abbrev pub with_remote : Ptr → Held → Held
with_remote r h = record h { rhand = λ a. h.rhand a + hit r a }

abbrev pub with_debt : Option Ptr → Held → Held
with_debt p h = record h { debt = λ a. h.debt a + opt_hit p a }

module _ {env : Env} where
  unfoldable pub queued : Board env → Ptr → ℕ
  queued t a = count a t.pqueue + total (count a) t.sqs t.squeue

  unfoldable pub awaited : Board env → Ptr → ℕ
  awaited t a = total (parent_refs a) t.next t.tasks + total (caller_refs a) t.next t.remotes

  unfoldable pub mailed : Board env → Ptr → ℕ
  mailed t r = count r t.msg_sent + count r t.msg_recv

  unfoldable pub roots : Board env → ℕ
  roots t = total root t.next t.tasks

  -- The storage of the task's coroutine is empty and has room for one of the program's structs.
  abbrev pub HasRoom : Board env → Task → Type 0
  HasRoom t x =
      (env.mco_get_bytes_stored x.ctx t.coros ≡ 0)
      × ((item : Stored) → (k : env.Coros) × (env.mco_push x.ctx item t.coros ≡ some k))

  -- A task's history entry is there.
  abbrev pub IsRecorded : Board env → Task → Type 0
  IsRecorded t x = (h : Ptr) × (e : History env) × (x.hist ≡ some h) × (t.hists h ≡ some e)

  -- A task object in a coroutine's storage has its history entry.
  abbrev pub KnowsStored : Board env → Ptr → Type 0
  KnowsStored t c =
      env.mco_get_bytes_stored c t.coros ≡ env.sizeof_task
      → (y : Task) (k : env.Coros) → env.mco_pop_task c t.coros ≡ some (y, k)
      → IsRecorded t y

  pub record Sound (held : Held) (t : Board env) : Type 0 where
    -- Every live task is referred to from one place, and so is every live remote task.
    pub once : (a : Ptr) → queued t a + awaited t a + held.hand a ≡ live (t.tasks a) + held.debt a
    pub mailed_once : (r : Ptr) → mailed t r + held.rhand r ≡ live (t.remotes r)
    pub fresh_task : (a : Ptr) → t.next ≤ a → t.tasks a ≡ none
    pub fresh_remote : (a : Ptr) → t.next ≤ a → t.remotes a ≡ none
    pub older : (a p : Ptr) (x : Task) → t.tasks a ≡ some x → x.parent ≡ some p → p < a
    pub called : (r : Ptr) (x : RemoteTask) → t.remotes r ≡ some x → live x.calling_task ≡ 1
    -- The count of concurrent tasks is the number of live root tasks, up to the tally.
    pub counted : IsTallied held.pending t.task_count (roots t)
    -- The history entries of tasks, and those that the table knows, are there.
    pub recorded :
        (a : Ptr) (x : Task) → t.tasks a ≡ some x → opt_hit held.new a ≡ 0 → IsRecorded t x
    pub tabled :
        (name : String) (h : Ptr)
        → env.hash_find_str t.exec_hist name ≡ some h
        → (e : History env) × (t.hists h ≡ some e)
    -- The table goes through each entry that is there once, and through no other.
    pub listed : (a : Ptr) → count a (env.hash_iter t.exec_hist) ≡ live (t.hists a)
    pub fresh_hist : (a : Ptr) → t.next ≤ a → t.hists a ≡ none

  -- A run that neither faults nor runs out of fuel, and whose result has a property.
  pub data Returns {A : Type 0} (P : A → Board env → Type 0) : Option (A × Board env) → Type 0 where
    returns : {a : A} {u : Board env} → P a u → Returns P (some (a, u))

  -- A property of a result that is at hand.
  abbrev pub Holds : {A : Type 0} → (A → Board env → Type 0) → Option (A × Board env) → Type 0
  Holds P none = ⊥
  Holds P (some (a, u)) = P a u

  module _ {A : Type 0} {P : A → Board env → Type 0} where
    pub Returns-mono :
        {Q : A → Board env → Type 0} {r : Option (A × Board env)}
        → Returns P r
        → ((a : A) (u : Board env) → P a u → Q a u)
        → Returns Q r
    Returns-mono (returns p) weaken = returns (weaken _ _ p)

    pub Returns-bind :
        {B : Type 0} {Q : B → Board env → Type 0} {r : Option (A × Board env)} {k : A → M env B}
        → Returns P r
        → ((a : A) (u : Board env) → P a u → Returns Q (k a u))
        → Returns Q (and_then r k)
    Returns-bind (returns p) next = next _ _ p

    pub Returns-Holds : {r : Option (A × Board env)} → Returns P r → Holds P r
    Returns-Holds (returns p) = p
