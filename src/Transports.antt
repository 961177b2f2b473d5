-- ===== src/Transports.antt =====
-- transports/: requests, their retries and their responses.
pub mod Quote
pub mod Replace
pub mod Common
pub mod Retry
pub mod Http
pub mod GraphQl
