-- ===== src/SbcMock/ReturnUas.antt =====
-- src/s_sbc_mock/uas.py, `ReturnUas`: how the return side answers the calls that come back.
--
-- What a request carries is read by the SIP stack, and the user agent that it makes for an INVITE is a
-- number. The timers that were asked for, the events given to the user agents and the INVITEs handed
-- to the orchestrator are recorded; a user agent's Call-ID is an argument of what reads it.
pub mod Laws
pub mod Waiting
use rdparty_as_poc.Prelude.{
  ℕ, zero, suc, String, ◌<>◌, Bool, true, false, ◌&&◌, Option, none, some, List, [], ◌∷◌, ◌++◌, not,
  if◌then◌else◌, is_some, str_eq,
}
use rdparty_as_poc.Prelude.Dict.{Dict}
use rdparty_as_poc.Prelude.Whitespace.{strip}

-- What the stack reads of a request.
pub record Request : Type 0 where
  pub to_tag : Option String
  pub method : String
  pub call_id : String
  pub request_uri : String
  pub called_number : String
  pub asserted_identity : Option String
  pub body : Option String
  pub headers : Dict String

pub record ReceivedInvite : Type 0 where
  pub call_id : String
  pub request_uri : String
  pub called_number : String
  pub calling_number : Option String
  pub body : String
  pub headers : Option (Dict String)

-- What `recv_request` answers: a response, or what the user agent does with the request.
pub data Answer : Type 0 where
  response : ℕ → String → Answer
  handed_to : ℕ → Answer

-- The timers of a call.
pub data Timer : Type 0 where
  ring answer release : ℕ → Timer

-- What the return side does to a user agent.
pub data Sent : Type 0 where
  ringing ok disconnect : ℕ → Sent

-- The events of the stack that the handlers tell apart.
pub data Event : Type 0 where
  try disconnected other : Event

pub record ReturnUas : Type 0 where
  pub passthrough : Bool
  -- there is a callback
  pub callback : Bool
  pub received_invites : List ReceivedInvite
  pub released_call_ids : List String
  pub timers : List Timer
  pub sent : List Sent
  pub handed_over : List ℕ

-- `_header_value`, stripped
abbrev pub header_value : Option String → Option String
header_value none = none
header_value (some value) = some (strip value)

-- `"" if body is None else str(body).strip()`
abbrev pub body_text : Option String → String
body_text none = ""
body_text (some body) = strip body

-- `_record`
unfoldable pub record_invite : Request → ReturnUas → ReturnUas
record_invite r u = record u {
  received_invites =
      u.received_invites
      ++ record {
        call_id = r.call_id;
        request_uri = r.request_uri;
        called_number = r.called_number;
        calling_number = header_value r.asserted_identity;
        body = body_text r.body;
        headers = some r.headers;
      }
        ∷ [];
}

-- `recv_request`, with the user agent that is made for an INVITE
unfoldable pub recv_request : Request → ℕ → ReturnUas → Answer × ReturnUas
recv_request r ua u =
    if is_some r.to_tag
    then (response 481 "Call Leg/Transaction Does Not Exist", u)
    else (if not (str_eq r.method "INVITE")
        then (response 501 "Not Implemented", u)
        else (let v = record_invite r u in
            (
              handed_to ua,
              if v.passthrough && v.callback
                  then record v { handed_over = v.handed_over ++ ua ∷ [] }
                  else v,
            )))

-- `_passthrough_on_event`
abbrev pub passthrough_on_event : Event → ℕ → ReturnUas → ReturnUas
passthrough_on_event e ua u = u

-- `_on_event`
unfoldable pub on_event : Event → ℕ → ReturnUas → ReturnUas
on_event try ua u = record u { timers = ring ua ∷ u.timers }
on_event disconnected ua u = u
on_event other ua u = u

-- `_ring`, `_answer` and `_release`, each the callback of a timer
unfoldable pub fire : Timer → String → ReturnUas → ReturnUas
fire (ring ua) call_id u = record u {
  sent = u.sent ++ ringing ua ∷ [];
  timers = answer ua ∷ u.timers;
}
fire (answer ua) call_id u = record u {
  sent = u.sent ++ ok ua ∷ [];
  timers = release ua ∷ u.timers;
}
fire (release ua) call_id u = record u {
  released_call_ids = u.released_call_ids ++ call_id ∷ [];
  sent = u.sent ++ disconnect ua ∷ [];
}

-- The loop takes a timer out, wherever it stands, and runs its callback.
unfoldable pub take : ℕ → List Timer → Option (Timer × List Timer)
take n [] = none
take zero (t ∷ ts) = some (t, ts)
take (suc n) (t ∷ ts) =
    let found = take n ts in elim found [ none ↦ none | some (x, rest) ↦ some (x, t ∷ rest) ]

abbrev pub fire_taken : Option (Timer × List Timer) → String → ReturnUas → ReturnUas
fire_taken none call_id u = u
fire_taken (some (t, ts)) call_id u = fire t call_id (record u { timers = ts })

-- What the loop does: a request arrives for a new user agent, a user agent has an event, or the timer
-- at a place is due, of a user agent with some Call-ID.
pub data Action : Type 0 where
  receives : Request → ℕ → Action
  reports : Event → ℕ → Action
  passes : Event → ℕ → Action
  fires : ℕ → String → Action

unfoldable pub act : Action → ReturnUas → ReturnUas
act (receives r ua) u = (recv_request r ua u).1
act (reports e ua) u = on_event e ua u
act (passes e ua) u = passthrough_on_event e ua u
act (fires n call_id) u = fire_taken (take n u.timers) call_id u

abbrev pub run : List Action → ReturnUas → ReturnUas
run [] u = u
run (a ∷ actions) u = run actions (act a u)

abbrev pub make : Bool → Bool → ReturnUas
make passthrough callback = record {
  passthrough = passthrough;
  callback = callback;
  received_invites = [];
  released_call_ids = [];
  timers = [];
  sent = [];
  handed_over = [];
}
