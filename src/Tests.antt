-- ===== src/Tests.antt =====
-- Runs of the definitions on concrete inputs, and each result's theorem at such an input.
mod Samples
mod Routing
mod Calls
mod FraudCalls
mod Screening
mod Callers
mod Reload
mod Load
mod LoadGenerator
mod Capacity
mod Capture
mod Probe
mod TrunkUac
mod Start
mod Orchestrator
mod RouteHeader
mod Events
mod SbcMock
mod LoadNumbers
mod LoadControl
