-- ===== src/Examples.antt =====
-- Concrete runs of the task board, on a small coroutine library and hash table.
pub mod Machine
pub mod Boards
pub mod Coroutines
pub mod Crowd
pub mod Threads
pub mod Witnesses
pub mod Issuing
pub mod Messages
pub mod Replies
pub mod Programs
