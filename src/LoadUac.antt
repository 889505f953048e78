-- ===== src/LoadUac.antt =====
-- tools/call_load_generator.py, `MockSipUac`: the calls that the generator's user agent has in flight,
-- and whom it tells when one ends.
--
-- All of this runs on the thread of the SIP stack, one event or timer at a time. The user agent of a
-- call and the callback that it notifies are parameters, and the stack calls back only after the call
-- was placed. Notifications, disconnections and timers are recorded, newest first.
pub mod Laws
use rdparty_as_poc.Prelude.{
  ℕ, ◌+◌, ◌%◌, String, ◌<>◌, Bool, true, false, Option, none, some, List, [], ◌∷◌, map,
  if◌then◌else◌, str_eq, Result, ok, err, ◌>>=◌,
}
use rdparty_as_poc.Prelude.Dict.{Dict, lookup, insert, remove, keys}

-- The far-end classes and their timers.
pub data Timer : Type 0 where
  bye d4 : String → Timer

-- The events of the stack that the handler tells apart.
pub data Event : Type 0 where
  connect disconnect fail other : Event

module _ (Ua Callback : Type 0) where
  pub record MockSipUac : Type 0 where
    pub bound : Bool
    pub uacs : Dict Ua
    pub known_call : Dict Callback
    pub ended : List (Callback × (String × String))
    pub disconnected : List Ua
    pub timers : List Timer

  abbrev pub notify : Option Callback → String → String → MockSipUac → MockSipUac
  notify none call_id reason u = u
  notify (some on_end) call_id reason u = record u { ended = (on_end, (call_id, reason)) ∷ u.ended }

  -- `_cleanup_call`
  unfoldable pub cleanup_call : String → String → MockSipUac → MockSipUac
  cleanup_call call_id reason u =
      notify (lookup call_id u.known_call) call_id reason
        (record u { known_call = remove call_id u.known_call; uacs = remove call_id u.uacs })

  abbrev pub disconnect_ua : Option Ua → MockSipUac → MockSipUac
  disconnect_ua none u = u
  disconnect_ua (some ua) u = record u { disconnected = ua ∷ u.disconnected }

  -- `_send_bye`
  unfoldable pub send_bye : String → String → MockSipUac → MockSipUac
  send_bye call_id reason u =
      cleanup_call call_id reason
        (disconnect_ua (lookup call_id u.uacs) (record u { uacs = remove call_id u.uacs }))

  -- `_on_d4_timeout`
  abbrev pub on_d4_timeout : String → MockSipUac → MockSipUac
  on_d4_timeout call_id u = send_bye call_id "cancel" u

  -- A timer that fires.
  abbrev pub fire : Timer → MockSipUac → MockSipUac
  fire (Timer.bye call_id) u = send_bye call_id "bye" u
  fire (Timer.d4 call_id) u = on_d4_timeout call_id u

  -- `_on_sippy_event`
  unfoldable pub on_sippy_event : Event → String → MockSipUac → MockSipUac
  on_sippy_event Event.connect call_id u = record u { timers = Timer.bye call_id ∷ u.timers }
  on_sippy_event Event.disconnect call_id u = cleanup_call call_id "bye" u
  on_sippy_event Event.fail call_id u = cleanup_call call_id "rejected" u
  on_sippy_event Event.other call_id u = u

  abbrev pub disconnect_each : List String → MockSipUac → MockSipUac
  disconnect_each [] u = u
  disconnect_each (call_id ∷ rest) u = disconnect_each rest (send_bye call_id "pool_stopped" u)

  -- What `force_disconnect_all` runs on the thread of the stack, over a snapshot of the calls.
  unfoldable pub force_disconnect_all : MockSipUac → MockSipUac
  force_disconnect_all u = disconnect_each (keys u.uacs) u

  -- `_actually_send`, for a call type that is known: the callback is registered before the INVITE, and
  -- the user agent after it.
  unfoldable pub actually_send : String → String → Callback → Ua → MockSipUac → MockSipUac
  actually_send call_id duration_class on_end ua u =
      if u.bound
      then record u {
        known_call = insert call_id on_end u.known_call;
        uacs = insert call_id ua u.uacs;
        timers = if str_eq duration_class "D4" then Timer.d4 call_id ∷ u.timers else u.timers;
      }
      else u

  -- A fresh user agent, bound or not.
  abbrev pub start : Bool → MockSipUac
  start bound = record {
    bound = bound;
    uacs = [];
    known_call = [];
    ended = [];
    disconnected = [];
    timers = [];
  }

  -- The calls whose end was told, newest first.
  abbrev pub notified : MockSipUac → List String
  notified u = map (λ e. e.1.0) u.ended
