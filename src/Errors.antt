-- ===== src/Errors.antt =====
-- common/errors.go: the errors of the program, their classes and what to do about them.
pub mod Kinds
pub mod Classes
pub mod Strategies
mod Tests
