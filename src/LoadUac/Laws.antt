-- ===== src/LoadUac/Laws.antt =====
-- No call's end is told twice (tools/call_load_generator.py, `MockSipUac`).
use rdparty_as_poc.Prelude.{
  if◌then◌else◌, str_eq, true, ℕ, ◌+◌, ◌≤◌, String, ◌≡◌, refl, ◌∙◌, inl, inr, Bool, Option, none,
  some, List, [], ◌∷◌, arith, Option-cases, Bool-cases, eq_iff,
}
use rdparty_as_poc.Prelude.Dict.{lookup, keys, count, count-insert, count-remove, remove_absent}
use rdparty_as_poc.LoadUac.{
  Event, Timer, MockSipUac, cleanup_call, send_bye, fire, on_sippy_event, disconnect_each,
  disconnect_ua, force_disconnect_all, actually_send, start, notified,
}

module _ (Ua Callback : Type 0) where
  -- How often a call is still to be told of, or has been.
  abbrev pub occurrences : String → MockSipUac Ua Callback → ℕ
  occurrences id u = count id (keys u.known_call) + count id (notified Ua Callback u)

  -- Telling moves a call from the one list to the other.
  cleanup_call-occurrences :
      (call_id reason id : String) (u : MockSipUac Ua Callback)
      → occurrences id (cleanup_call Ua Callback call_id reason u) ≡ occurrences id u
  unfolding cleanup_call
  cleanup_call-occurrences call_id reason id u = elim (Option-cases (lookup call_id u.known_call)) [
    | inl unknown ↦ rw (unknown, remove_absent call_id u.known_call unknown)
    | inr (on_end, known) ↦
        let moved = count-remove id call_id u.known_call known in rw known (ground (arith, moved))
  ]

  disconnect_ua-occurrences :
      (o : Option Ua) (id : String) (u : MockSipUac Ua Callback)
      → occurrences id (disconnect_ua Ua Callback o u) ≡ occurrences id u
  disconnect_ua-occurrences none id u = refl
  disconnect_ua-occurrences (some ua) id u = refl

  send_bye-occurrences :
      (call_id reason id : String) (u : MockSipUac Ua Callback)
      → occurrences id (send_bye Ua Callback call_id reason u) ≡ occurrences id u
  unfolding send_bye
  send_bye-occurrences call_id reason id u =
      cleanup_call-occurrences call_id reason id _
      ∙ disconnect_ua-occurrences (lookup call_id u.uacs) id _

  pub fire-occurrences :
      (t : Timer) (id : String) (u : MockSipUac Ua Callback)
      → occurrences id (fire Ua Callback t u) ≡ occurrences id u
  fire-occurrences (Timer.bye call_id) id u = send_bye-occurrences call_id "bye" id u
  fire-occurrences (Timer.d4 call_id) id u = send_bye-occurrences call_id "cancel" id u

  pub on_sippy_event-occurrences :
      (e : Event) (call_id id : String) (u : MockSipUac Ua Callback)
      → occurrences id (on_sippy_event Ua Callback e call_id u) ≡ occurrences id u
  unfolding on_sippy_event
  on_sippy_event-occurrences Event.connect call_id id u = refl
  on_sippy_event-occurrences Event.disconnect call_id id u =
      cleanup_call-occurrences call_id "bye" id u
  on_sippy_event-occurrences Event.fail call_id id u =
      cleanup_call-occurrences call_id "rejected" id u
  on_sippy_event-occurrences Event.other call_id id u = refl

  pub disconnect_each-occurrences :
      (ids : List String) (id : String) (u : MockSipUac Ua Callback)
      → occurrences id (disconnect_each Ua Callback ids u) ≡ occurrences id u
  disconnect_each-occurrences [] id u = refl
  disconnect_each-occurrences (call_id ∷ ids) id u =
      disconnect_each-occurrences ids id _ ∙ send_bye-occurrences call_id "pool_stopped" id u

  -- What may happen to the user agent: a call is placed under a new identifier, the stack reports an
  -- event of some call, a timer fires, late ones included, or everything is disconnected.
  pub data Step (u v : MockSipUac Ua Callback) : Type 0 where
    sends :
        (call_id duration_class : String) (on_end : Callback) (ua : Ua)
        → occurrences call_id u ≡ 0
        → v ≡ actually_send Ua Callback call_id duration_class on_end ua u
        → Step u v
    reports : (e : Event) (call_id : String) → v ≡ on_sippy_event Ua Callback e call_id u → Step u v
    fires : (t : Timer) → v ≡ fire Ua Callback t u → Step u v
    disconnects : v ≡ force_disconnect_all Ua Callback u → Step u v

  pub data Reach (u : MockSipUac Ua Callback) : MockSipUac Ua Callback → Type 0 where
    here : Reach u u
    next : {v w : MockSipUac Ua Callback} → Reach u v → Step v w → Reach u w

  -- Placing a new call makes it known.
  pub actually_send_fresh :
      (call_id duration_class : String) (on_end : Callback) (ua : Ua) (id : String)
      (u : MockSipUac Ua Callback)
      → u.bound ≡ true
      → occurrences call_id u ≡ 0
      → occurrences id (actually_send Ua Callback call_id duration_class on_end ua u)
        ≡ (if str_eq call_id id then 1 else 0) + occurrences id u
  unfolding actually_send
  actually_send_fresh call_id duration_class on_end ua id u bound fresh =
      let added = count-insert id call_id on_end u.known_call (omega (arith, fresh)) in
      rw bound (ground (arith, added))

  actually_send-occurrences :
      (call_id duration_class : String) (on_end : Callback) (ua : Ua) (id : String)
      (u : MockSipUac Ua Callback)
      → occurrences call_id u ≡ 0
      → occurrences id u ≤ 1
      → occurrences id (actually_send Ua Callback call_id duration_class on_end ua u) ≤ 1
  unfolding actually_send
  actually_send-occurrences call_id duration_class on_end ua id u fresh once =
      elim (Bool-cases u.bound) [
        | inr unbound ↦ rw unbound once
        | inl bound ↦
            let added = count-insert id call_id on_end u.known_call (omega (arith, fresh)) in
            rw bound (ground (arith, added, fresh, once, eq_iff call_id id))
      ]

  Step-once :
      (id : String) (u v : MockSipUac Ua Callback)
      → Step u v
      → occurrences id u ≤ 1
      → occurrences id v ≤ 1
  unfolding force_disconnect_all
  Step-once id u v (sends call_id duration_class on_end ua fresh e) once =
      rw e (actually_send-occurrences call_id duration_class on_end ua id u fresh once)
  Step-once id u v (reports x call_id e) once =
      rw e (omega (arith, on_sippy_event-occurrences x call_id id u, once))
  Step-once id u v (fires t e) once = rw e (omega (arith, fire-occurrences t id u, once))
  Step-once id u v (disconnects e) once =
      rw e (omega (arith, disconnect_each-occurrences (keys u.uacs) id u, once))

  Reach-once :
      (id : String) {u v : MockSipUac Ua Callback}
      → occurrences id u ≤ 1
      → Reach u v
      → occurrences id v ≤ 1
  Reach-once id once here = once
  Reach-once id once (next r step) = Step-once id _ _ step (Reach-once id once r)

  -- Whatever the stack reports and whichever timers fire, and however often, in any order, and when
  -- all calls are disconnected in between, the end of each call is told at most once, where each call
  -- is placed under a new identifier; and a call that has been told of is no longer known.
  pub Reach-notified :
      (bound : Bool) (u : MockSipUac Ua Callback) (id : String)
      → Reach (start Ua Callback bound) u
      → (count id (notified Ua Callback u) ≤ 1)
        × (1 ≤ count id (notified Ua Callback u) → count id (keys u.known_call) ≡ 0)
  Reach-notified bound u id r =
      let once = Reach-once id (omega arith) r in
      (omega (arith, once), λ told. omega (arith, once, told))
