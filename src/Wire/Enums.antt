-- ===== src/Wire/Enums.antt =====
-- crates/opcda-bridge-proto/proto/bridge.proto: the enumerations of the protocol, with the number of
-- each value. On the wire an enumeration is an `i32`; a number that it does not list has no value.
-- A name starts with `Proto` as in the imports of the gateway's server/map.rs.
mod Nodes
mod Builds
unfoldable pub use Nodes.*
unfoldable pub use Builds.*
