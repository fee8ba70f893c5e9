-- ===== src/Programs.antt =====
-- Programs of the directory user.
pub mod Export
pub mod KillCommand
pub mod JobControl
pub mod Login
mod Tests
