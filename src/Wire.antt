-- ===== src/Wire.antt =====
-- What goes over the wire: the JSON forms of events and parts, a2a/core.go, up to what encoding/json does, and
-- server-sent events, internal/sse/sse.go, and path templates, internal/pathtemplate.
pub mod Events
pub mod Parts
pub mod Sse
pub mod Stream
pub mod PathTemplate
pub mod Paths
