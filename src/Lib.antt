-- ===== src/Lib.antt =====
-- jam_tboard: a model of the task board of this repository, a library in C that runs coroutines
-- as tasks on several threads.
--
-- A task board keeps a ready queue for the primary executor and up to ten for secondary
-- executors, and two queues of remote tasks, to and from a controller. An executor
-- (src/executor.c) lets the task sequencer (src/sequencer.c) handle one answer of the
-- controller, takes a task from a queue, resumes its coroutine, and then puts the task back,
-- issues what the task asked for, or records its end in the history (src/history.c) and frees
-- it. src/tboard.c creates, places, counts and destroys tasks, and creates, starts, kills and
-- destroys the board. src/processor.c makes tasks of the controller's messages.
--
-- Common: what the modules share: tests, the numbers of C's `int`, families indexed by
-- addresses and their sums.
-- Task: task_t, remote_task_t, function_t and the constants of src/tboard.h.
-- Env: the coroutine library, the hash table, `rand` and `double`, which the program calls, as
-- parameters; Env.Laws: what is relied on of them.
-- Queue: src/queue/queue.c. Board: tboard_t, with the process's memory and the operations on
-- it. Counter: tboard_get_concurrent to tboard_add_concurrent. History: src/history.c. Place:
-- task_place and remote_task_place. Create: task_add and task_create. Destroy: task_destroy and
-- remote_task_destroy. Lifecycle: tboard_create, tboard_start, tboard_kill and tboard_destroy,
-- all of src/tboard.c.
-- Issue: blocking_task_create and remote_task_create of src/tboard.c, each up to its yield and
-- after it. Turns: what a task whose code is not known does from one stop to the next, as a
-- tree of its calls. Sequencer: src/sequencer.c. Executor: a round of `executor`, with
-- Executor.Fetch for the choice of the next task. Processor: src/processor.c. Tokens: `strtok`
-- with a space as the delimiter. Controller: the worker-to-controller side of src/dummy_MQTT.c.
-- Mqtt: the controller-to-worker side and the arithmetic for remote tasks (Mqtt.Blocks), with
-- the pool of messages, the queue to the task board and the counts; Mqtt.Parse: what MQTT_recv
-- reads in a message; Mqtt.Tasks: the tasks that a controller can ask for; Mqtt.Arithmetic:
-- what the operators stand for; Mqtt.Wire: requests as a controller writes them; Mqtt.Mailbox:
-- the mailbox that the pool, the queue and the blocks implement.
-- Ownership: the invariant of the memory (Ownership.Defs: `Sound`) and one module for each part
-- of the program that keeps it. Every live task is referred to from exactly one place: a ready
-- queue, a task or blocking remote task that it waits for, or the hand of a thread; every live
-- remote task is in one message queue or one hand; the count of concurrent tasks is the number
-- of tasks that have no parent, and at most MAX_TASKS; each task's history entry is there; and
-- a task is younger than its parent.
-- Coroutines: which coroutine runs which task, and what its storage holds (Coroutines.Defs:
-- `Tenants`), and one module for each part of the program that hands tasks over; Env.Views:
-- what is relied on of the coroutine library for it.
-- System: executors, the controller's thread and callers from outside as a system whose steps
-- come in any order; System.Reachable: what each step needs and keeps; System.Runs: the board's
-- life from tboard_create to tboard_destroy.
-- Programs: programs that use the task board. Programs.Collatz:
-- src/legacy_tests/test2_Collatz.c, with its tasks cut where they yield. Programs.Remote:
-- src/legacy_tests/test7_blocking_remote_tasks.c, in the same way.
-- Examples: a small coroutine library and hash table, and the theorems at concrete boards.
--
-- An operation is a function from a board to an optional result and board: a read or a `free`
-- of a task, remote task or history entry that is not allocated, and an assertion that fails,
-- have no result. The blocks that `user_data` and `data` point to are not objects of this
-- memory: a free of one is listed, and a second free of it is not seen. An address is a number,
-- `calloc` hands out the next one, and a pointer that may be NULL is an option. Where other
-- threads may come in between two critical sections, the code is cut into definitions there,
-- and what the threads hold between them is `Held`, a parameter of the invariant. What a task
-- does with the processor is a parameter of executor_round.
--
-- A task's turn has fuel: one more than the number of its calls, which is enough as each step
-- leaves a shorter turn. The recursion of task_destroy over parents has fuel: the next free
-- address, which is enough as a parent is older than its child. All other loops are over lists
-- or a number of queues.
--
-- In a system of threads, `Fits` says what a step needs; for the run of a task it is `Resumes`:
-- from the board where it begins, the task comes back in the executor's hand, with the memory
-- sound. Coroutines.Rounds shows this of a task's turn, where the coroutines are in order.
--
-- Not modelled: the waits on condition variables, thread cancellation, mutexes, output and
-- logging. `int` counters that only grow are kept modulo 2^32. The task count and the task
-- types are numbers without bounds; MAX_TASKS keeps the count away from the ends of `int`.
pub mod Common
pub mod Task
pub mod Env
pub mod Programs
pub mod Queue
pub mod Board
pub mod Counter
pub mod History
pub mod Place
pub mod Create
pub mod Destroy
pub mod Sequencer
pub mod Executor
pub mod Processor
pub mod Issue
pub mod Turns
pub mod Tokens
pub mod Controller
pub mod Mqtt
pub mod Lifecycle
pub mod System
pub mod Coroutines
pub mod Ownership
pub mod Examples
