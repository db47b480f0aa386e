-- ===== src/Request.antt =====
-- The automaton of requests in src/request.cpp.
pub mod Refs
pub mod Keys
pub mod Description
pub mod Context
pub mod ValueSink
