-- ===== src/Go.antt =====
-- What the program uses of Go's standard library: texts, times, wrapped errors, and a calculus of
-- calls that change a state and may fail.
pub mod Text
pub mod Time
pub mod Failure
pub mod Chain
pub mod Action
