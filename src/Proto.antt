-- ===== src/Proto.antt =====
-- The conversions between the data model and protobuf: a2apb/v1/pbconv.
pub mod Structs
pub mod ToProto
pub mod FromProto
pub mod RoundTrip
pub mod Events
pub mod Requests
pub mod Sending
pub mod RequestTrips
