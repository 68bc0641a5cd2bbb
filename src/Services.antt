-- ===== src/Services.antt =====
-- backend/src/grpc_services.cpp: the messages (`Messages`), the conversions (`Convert`), what comes
-- back of them (`Roundtrip`), the state
-- and messages of the control service (`Server`), and its handlers (`Control`).
pub mod Messages
pub mod Convert
pub mod Roundtrip
pub mod Server
pub mod Control
