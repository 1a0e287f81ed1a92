-- ===== src/Tests.antt =====
-- Runs of the modelled code at concrete inputs.
mod Caching
mod Configuration
mod Communication
mod Protocol
mod UrlEncoding
mod Json
mod Responses
