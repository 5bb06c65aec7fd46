-- ===== src/Generate.antt =====
-- tools/generate_types/main.go: Go types from the OpenAPI specification. `Schema` has the parsed
-- specification, `Naming` the names and texts, `Resolve` the Go type of a property, `Topological`
-- the order of the types, `Groups` their sections, and `Emit` the file that is written. Texts are
-- taken to be ASCII where runes or cases matter.
pub mod Schema
pub mod Naming
pub mod Resolve
pub mod Topological
pub mod Order
pub mod Search
pub mod Ordering
pub mod Sorted
pub mod Determined
pub mod Groups
pub mod Emit
mod Tests
