-- ===== src/Request.antt =====
-- request.go, prepared.go, stream.go, watch.go, protocol.go: the requests, one module for each, and
-- the interface that they share. A user's value is of the type `V` of the codec; a space and an
-- index are of types `S` and `I`, which the argument `resolve` turns into numbers (schema.go).
pub mod Fill
pub mod Bind
pub mod Base
pub mod Ping
pub mod Select
pub mod Insert
pub mod Replace
pub mod Delete
pub mod Update
pub mod Upsert
pub mod Call
pub mod Eval
pub mod Execute
pub mod Prepare
pub mod Unprepare
pub mod ExecutePrepared
pub mod Begin
pub mod Commit
pub mod Rollback
pub mod Identify
pub mod Broadcast
pub mod Watch
pub mod Unwatch
pub mod Any
pub mod Bodies
pub mod WellFormed
pub mod KeyOrder
mod Tests
