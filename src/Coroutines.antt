-- ===== src/Coroutines.antt =====
-- Which coroutine runs which task, and what is in its storage: what src/tboard.c and
-- src/executor.c rely on when they use the storage of a coroutine to hand over tasks.
pub mod Defs
pub mod Frame
pub mod Moves
pub mod Objects
pub mod Likes
pub mod Placing
pub mod Steps
pub mod Creating
pub mod Processing
pub mod Tidying
pub mod Answering
pub mod Responding
pub mod Alone
pub mod Yielding
pub mod Ending
pub mod Handing
pub mod Replying
pub mod Stopping
pub mod Whole
pub mod Turning
pub mod Resuming
pub mod Depth
pub mod Ticking
pub mod Turn
pub mod Rounds
