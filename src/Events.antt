-- ===== src/Events.antt =====
-- The live events of both application servers: the fan-out to the consoles, the threads that it runs
-- on, and what the call controllers report (src/as_app and src/anti_fraud_as).
pub mod Publisher
pub mod Server
pub mod Report
