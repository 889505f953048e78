-- ===== src/Lib.antt =====
-- Verification of two third-party IMS application servers, written in Python over a SIP
-- back-to-back user agent: the routing server (src/as_app), which translates the called number and
-- chooses next hops, and the anti-fraud server (src/anti_fraud_as), which screens the calling
-- number.
--
-- How the parts interact. A declarative YAML file is loaded into a store, and each poll reloads it
-- when its fingerprint changed. For one call the routing controller asks the engine for a decision
-- over the rule set in force, records it, and builds a relay or a reject. The anti-fraud controller
-- first has the process-level caller state observe the call, matches the number against the lists
-- in force, takes the verdict, and penalises the caller of a rejected call. A server starts with a
-- self-check, loads its file into the store, and polls; a reload of the screening data reconfigures
-- the caller state. Around the servers stand the test peers: the load generator's pool spawns calls
-- on its user agent, which tells the pool when they end; the capacity probe places calls on the
-- trunk side of the S-SBC mock and reads their outcomes; and the orchestrator of the IMS mock
-- passes a call through both servers to the terminating side. The S-SBC mock's application places its
-- scenarios on its trunk side, and its return side answers what comes back. Both servers report each
-- call to the consoles that are connected to their internal interface.
--
-- Which file models what:
--   Errors               src/as_app/errors.py and src/anti_fraud_as/errors.py
--   Reload               `RuleSetStore` and `ScreeningDataStore`: __init__ is make_store, maybe_reload
--                        keeps its name
--   Routing.Rules        src/as_app/routing/rules.py: the pydantic models, `_require_condition`,
--                        `_validate_references`, `RuleSet`
--   Routing.Loading      load_rule_set and the store of rule sets
--   Routing.Engine       src/as_app/routing/engine.py, by the names of its functions
--   RoutingCall          src/as_app/call_controller.py: `decide`, here decide_call, with route_call,
--                        reject_error and disposition_for
--   Screening            src/anti_fraud_as/screening.py
--   ScreeningData        src/anti_fraud_as/screening_data.py: the lists and `_match`, here match_index;
--                        its module Document has the file, its loader and its store
--   CallerState          src/anti_fraud_as/caller_state.py: the window, the ledger and
--                        `CallerStateStore`
--   FraudCall            src/anti_fraud_as/call_controller.py: `decide`, here decide_call, with
--                        `_record_verdict`; its module Signals has calling_number_of and
--                        declares_sip_608
--   RouteHeader          src/as_app/route_header.py and src/anti_fraud_as/route_header.py, the hop that
--                        `_originate_towards` sends to, here wire_hop, and the entry that
--                        src/s_sbc_mock/uac.py prints
--   Startup              src/as_app/bootstrap.py and src/anti_fraud_as/bootstrap.py, whose self-checks have
--                        one shape, and the decisions of `main` in both main.py
--   FraudStack           src/anti_fraud_as/main.py: `FraudAsStack` with its reload timer, and the calls
--                        that are decided between two reloads
--   Events               the live events of both servers: Publisher is `SimplePublisher` of both
--                        internal_api.py, Server is `InternalApiServer.start`, and Report is
--                        `_emit_p12` and its callers in both call_controller.py
--   TrunkUac             src/s_sbc_mock/uac.py: the calls placed and their outcomes
--   SbcMock              src/s_sbc_mock/main.py is Application, and src/s_sbc_mock/uas.py is ReturnUas
--   Orchestrator         src/ims_mock: Fsm is orchestrator.py, Session and CallId are chained_stack.py,
--                        Relay is pcscf_relay.py
--   CallModel, LoadPool  tools/call_load_generator.py: the call types and the configuration, and
--                        `CallPool`
--   LoadUac              tools/call_load_generator.py: `MockSipUac`
--   LoadNumbers          tools/call_load_generator.py: `numbers_for` and its tables
--   LoadControl          tools/call_load_generator.py: the pool over HTTP, its `start`, `stop`, cut at
--                        the wait for its task, and `snapshot`, and the end of `_amain`
--   LoadGenerator        tools/call_load_generator.py: the pool and its user agent together
--   CapacityProbe        tools/capacity_probe.py: observe_level over TrunkUac, and parse_levels;
--                        Unreachable: LoopGap.beat and observe_unreachable_hop; Load: load_scenario
--   Capture              tools/capture_call.py: _break_after_settle, and the loop of run_call
--   Prelude              helpers on tests, lists, texts, results, sorting, dicts and decimals,
--                        integers, and floats as a parameter
--   Tests                runs at concrete inputs
--
-- What is a parameter. Python's float is the record Floats, with the laws of IsOrdered where a theorem
-- needs them; whole numbers are an instance. The platform's StateStore is an interface with the laws
-- IsLawful. The file system, YAML, pydantic's reading of fields, the SIP stack, the clock, and the
-- platform's Call-ID and header helpers are parameters as well.
--
-- A library raises what the `except` clause around its call names, or another exception (Raised), and a
-- loader passes on an AsError or that other one (Exception).
--
-- State is passed explicitly, an operation that can raise returns a Result, and an operation that reads
-- the clock or the disk twice takes two readings. Loops are structural recursion; only the printing of
-- a decimal number takes fuel, one more than the number, which is enough since each step divides it.
--
-- In the load generator a rate is a float with the constants of the record Rates, and the random draws
-- and identifiers are arguments; in the mocks the user agents, scenarios and event data of the SIP stack
-- are types of which nothing is assumed, and each call of the stack's event loop is one step of a
-- relation Step, whose runs are Reach.
--
-- Not modelled: log lines, sockets, the HTTP
-- interfaces, the console, the headers that the mock peers print but for the Route entry, and the tools that only start processes and print what happens.
pub mod Prelude
pub mod Errors
pub mod Events
pub mod Reload
pub mod Routing
pub mod Screening
pub mod ScreeningData
pub mod CallerState
pub mod FraudCall
pub mod RoutingCall
pub mod RouteHeader
pub mod CallModel
pub mod LoadPool
pub mod LoadGenerator
pub mod LoadUac
pub mod LoadNumbers
pub mod LoadControl
pub mod Orchestrator
pub mod Startup
pub mod FraudStack
pub mod TrunkUac
pub mod SbcMock
pub mod CapacityProbe
pub mod Capture
mod Tests
