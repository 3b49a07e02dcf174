-- ===== src/Programs.antt =====
-- Programs of the repository that use the task board.
pub mod Collatz
pub mod Remote
