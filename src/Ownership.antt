-- ===== src/Ownership.antt =====
-- Who refers to which object of the task board: the invariant behind src/tboard.c and
-- src/executor.c. A live task is in a ready queue, or waits as the parent of a live task or as the
-- caller of a live blocking remote task, or is in the hands of a thread.
pub mod Defs
pub mod Frame
pub mod Memory
pub mod Record
pub mod Tasks
pub mod Ending
pub mod Remotes
pub mod Yielding
pub mod Requeue
pub mod Rounds
pub mod Fetching
pub mod Responding
pub mod Creation
pub mod Destruction
pub mod Draining
pub mod Only
pub mod Size
pub mod Shutdown
pub mod Printing
pub mod Beginning
pub mod Messages
pub mod Whole
pub mod Issuing
pub mod Answering
