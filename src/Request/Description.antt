-- ===== src/Request/Description.antt =====
-- The class AutomatonDescription of src/request.cpp, the builder of the automaton of a request.
pub mod Expression
pub mod State
pub mod Calls
pub mod Structs
pub mod Operations
pub mod Errors
pub mod Selectors
pub mod Groups
pub mod Grouping
pub mod Checks
pub mod Items
pub mod Mapped
