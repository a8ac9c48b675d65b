-- ===== src/Session.antt =====
-- src/domain/session_controller.cpp: the state machine of a switching session. A result `none` is
-- undefined behaviour in the source: an empty optional that is read, or an index out of range.
pub mod Defs
pub mod Apply
pub mod Step
pub mod Invariant
pub mod Pruning
pub mod Attempts
pub mod Outcome
pub mod Safety
pub mod Browse
pub mod Trace
pub mod Handover
