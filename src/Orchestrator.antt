-- ===== src/Orchestrator.antt =====
-- The S-CSCF of the IMS mock (src/ims_mock): child `Fsm` is orchestrator.py, `CallId` the Call-IDs,
-- `Session` the `ChainedOrchestrator` of chained_stack.py, `Relay` the relay of pcscf_relay.py, and
-- `Laws`, `Relayed` and `Runs` what holds of their sessions.
pub mod Fsm
pub mod CallId
pub mod Session
pub mod Relay
pub mod Laws
pub mod Relayed
pub mod Runs
