-- ===== src/Tests.antt =====
-- Tests by evaluation, and the theorems at concrete inputs.
mod Uri
mod Stack
mod Events
mod Request
mod Serialization
mod Schema
mod SchemaSource
mod RequestParser
mod Allocator
mod Value
mod Context
