-- ===== src/Communication.antt =====
-- core/communication and core/BeaconSender.cxx.
pub mod Context
pub mod Requests
pub mod States
pub mod Machine
