-- ===== src/Protocol.antt =====
-- protocol: what the server answers, and how the data of a beacon is sent.
pub mod Attributes
pub mod StatusResponse
pub mod JsonResponse
pub mod KeyValueResponse
pub mod Responses
pub mod BeaconSend
pub mod BeaconEvents
