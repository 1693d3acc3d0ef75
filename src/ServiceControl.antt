-- ===== src/ServiceControl.antt =====
-- The requests to service control and the answers of it, src/api_manager/service_control/proto.cc.
-- Protobuf messages are records of the fields that are set.
pub mod Convert
pub mod Labels
pub mod Metrics
pub mod LogEntry
pub mod Fill
pub mod Aggregated
pub mod FailOpen
pub mod Once
pub mod Examples
