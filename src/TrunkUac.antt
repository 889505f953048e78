-- ===== src/TrunkUac.antt =====
-- src/s_sbc_mock/uac.py, `TrunkUac`: what the caller's side observes of the calls that it places.
--
-- The stack generates the Call-IDs and calls back with events; the timers that it was asked for and the
-- user agents that were disconnected are recorded by Call-ID, newest first.
pub mod Laws
use rdparty_as_poc.Prelude.{
  ℕ, String, ◌<>◌, Bool, true, false, Option, none, some, List, [], ◌∷◌, ◌++◌, find?, str_eq,
  if◌then◌else◌, Result, ok, err,
}

-- `CallScenario`, less what only the stack reads.
pub record CallScenario : Type 0 where
  pub name : String
  pub abandon : Bool

pub record CallOutcome : Type 0 where
  pub scenario_name : String
  pub call_id : String
  pub status : Option ℕ
  pub released : Bool
  pub cancelled : Bool

-- The first entry of an event's data: no data, a code that is an `int`, or another object.
pub data EventData : Type 0 where
  no_data other_code : EventData
  code : ℕ → EventData

pub data Event : Type 0 where
  ring : Event
  connect fail : EventData → Event
  disconnect other : Event

pub record TrunkUac : Type 0 where
  pub bound : Bool
  pub outcomes : List CallOutcome
  pub abandoning : List String
  pub disconnected : List String

-- `_status_of`
abbrev pub status_of : EventData → Option ℕ
status_of no_data = none
status_of other_code = none
status_of (code n) = some n

-- `outcome.x if x is None else x`
abbrev pub unless_none {ℓ} : {A : Type ℓ} → Option A → A → A
unless_none none old = old
unless_none (some x) old = x

abbrev pub or_old : Option ℕ → Option ℕ → Option ℕ
or_old none old = old
or_old (some n) old = some n

-- The arguments of `_update`.
pub record Change : Type 0 where
  pub status : Option ℕ
  pub released : Option Bool
  pub cancelled : Option Bool

abbrev pub amend : Change → CallOutcome → CallOutcome
amend c o = record o {
  status = or_old c.status o.status;
  released = unless_none c.released o.released;
  cancelled = unless_none c.cancelled o.cancelled;
}

-- `_update`: the first outcome of the call.
unfoldable pub update : String → Change → List CallOutcome → List CallOutcome
update call_id c [] = []
update call_id c (o ∷ os) =
    let rest = update call_id c os in if str_eq o.call_id call_id then amend c o ∷ os else o ∷ rest

abbrev pub updated : String → Change → TrunkUac → TrunkUac
updated call_id c u = record u { outcomes = update call_id c u.outcomes }

unfoldable pub outcome_for : String → List CallOutcome → Option CallOutcome
outcome_for call_id os = find? (λ o. str_eq o.call_id call_id) os

-- `CallOutcome(scenario_name=…, call_id=…)`
abbrev pub placed : String → String → CallOutcome
placed name call_id = record {
  scenario_name = name;
  call_id = call_id;
  status = none;
  released = false;
  cancelled = false;
}

-- `send_trunk_invite`, over the Call-ID that the stack generates.
unfoldable pub send_trunk_invite :
    CallScenario → String → String → TrunkUac → Result String String × TrunkUac
send_trunk_invite scenario name_suffix call_id u =
    let name = if str_eq name_suffix "" then scenario.name else scenario.name <> name_suffix in
    if u.bound
    then (ok call_id, record u { outcomes = u.outcomes ++ placed name call_id ∷ [] })
    else (err "RuntimeError", u)

-- `place_call`
unfoldable pub place_call : CallScenario → String → TrunkUac → Result String String × TrunkUac
place_call scenario call_id u =
    if u.bound
    then (ok call_id, record u { outcomes = u.outcomes ++ placed scenario.name call_id ∷ [] })
    else (err "RuntimeError", u)

-- `_on_event`
unfoldable pub on_event : Event → CallScenario → String → TrunkUac → TrunkUac
on_event ring scenario call_id u =
    if scenario.abandon then record u { abandoning = call_id ∷ u.abandoning } else u
on_event (connect d) scenario call_id u =
    updated call_id (record { status = status_of d; released = none; cancelled = none }) u
on_event (fail d) scenario call_id u =
    updated call_id (record { status = status_of d; released = some true; cancelled = none }) u
on_event disconnect scenario call_id u =
    updated call_id (record { status = none; released = some true; cancelled = none }) u
on_event other scenario call_id u = u

-- `_abandon`
unfoldable pub abandon_call : String → TrunkUac → TrunkUac
abandon_call call_id u =
    let v = updated call_id (record { status = none; released = none; cancelled = some true }) u in
    record v { disconnected = call_id ∷ v.disconnected }
