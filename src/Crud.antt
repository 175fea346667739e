-- ===== src/Crud.antt =====
-- crud/: the requests of the crud module, which are calls of functions, and their options.
pub mod Values
pub mod Options
pub mod CountOptions
pub mod GetOptions
pub mod SelectOptions
pub mod Pairs
pub mod Sent
pub mod Base
pub mod Insert
pub mod InsertObject
pub mod InsertMany
pub mod InsertObjectMany
pub mod Replace
pub mod ReplaceObject
pub mod ReplaceMany
pub mod ReplaceObjectMany
pub mod Upsert
pub mod UpsertObject
pub mod UpsertMany
pub mod UpsertObjectMany
pub mod Update
pub mod Delete
pub mod Get
pub mod Select
pub mod Count
pub mod Min
pub mod Max
pub mod Len
pub mod Truncate
pub mod StorageInfo
pub mod Stats
pub mod Any
pub mod Calls
mod Tests
