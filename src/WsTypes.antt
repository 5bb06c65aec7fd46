-- ===== src/WsTypes.antt =====
-- tools/generate_ws_types/main.go: Go types of the WebSocket messages from the AsyncAPI
-- specification. `Tables` has its tables, `Collect` and `Messages` what it gathers from the
-- specification, `Resolve` the Go type of a property, and `Emit` and `Write` the file that is
-- written. A map that is ranged over is a list in the order of the range. The schemas and the
-- helpers that the tool repeats are those of `Generate`.
pub mod Tables
pub mod Collect
pub mod Messages
pub mod Merge
pub mod Resolve
pub mod Fuel
pub mod Depth
pub mod Emit
pub mod Write
mod Tests
