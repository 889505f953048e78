-- ===== src/LoadControl/Disconnecting.antt =====
-- What `force_disconnect_all` does to the calls in flight (tools/call_load_generator.py).
use rdparty_as_poc.Prelude.{
  String, ◌≡◌, refl, ap, ◌∙◌, Option, none, some, List, [], ◌∷◌, str_eq_refl,
}
use rdparty_as_poc.Prelude.Dict.{Dict, lookup, remove, keys, count, lookup-count, remove_absent}
use rdparty_as_poc.LoadUac.{
  MockSipUac, cleanup_call, disconnect_ua, send_bye, disconnect_each, notify,
}

module _ (Ua Callback : Type 0) where
  -- The keys of a Python dict stand in it once.
  abbrev pub IsDict : Dict Ua → Type 0
  IsDict [] = Unit
  IsDict ((k, v) ∷ d) = (count k (keys d) ≡ 0) × IsDict d

  -- The user agents of a dict, the last one first, in front of others.
  abbrev pub agents_then : Dict Ua → List Ua → List Ua
  agents_then [] seen = seen
  agents_then ((k, v) ∷ d) seen = agents_then d (v ∷ seen)

  notify-uacs :
      (o : Option Callback) (call_id reason : String) (u : MockSipUac Ua Callback)
      → ((notify Ua Callback o call_id reason u).uacs ≡ u.uacs)
        × ((notify Ua Callback o call_id reason u).disconnected ≡ u.disconnected)
  notify-uacs none call_id reason u = (refl, refl)
  notify-uacs (some on_end) call_id reason u = (refl, refl)

  disconnect_ua-uacs :
      (o : Option Ua) (u : MockSipUac Ua Callback) → (disconnect_ua Ua Callback o u).uacs ≡ u.uacs
  disconnect_ua-uacs none u = refl
  disconnect_ua-uacs (some ua) u = refl

  disconnect_ua-some :
      (o : Option Ua) (ua : Ua) (u : MockSipUac Ua Callback)
      → o ≡ some ua
      → (disconnect_ua Ua Callback o u).disconnected ≡ ua ∷ u.disconnected
  disconnect_ua-some o ua u h = rw h refl

  cleanup_call-uacs :
      (call_id reason : String) (u : MockSipUac Ua Callback)
      → ((cleanup_call Ua Callback call_id reason u).uacs ≡ remove call_id u.uacs)
        × ((cleanup_call Ua Callback call_id reason u).disconnected ≡ u.disconnected)
  unfolding cleanup_call
  cleanup_call-uacs call_id reason u = notify-uacs (lookup call_id u.known_call) call_id reason _

  remove-head :
      (k : String) (v : Ua) (d : Dict Ua)
      → count k (keys d) ≡ 0
      → remove k (remove k ((k, v) ∷ d)) ≡ d
  unfolding remove
  remove-head k v d fresh = rw (str_eq_refl k) (remove_absent k d (lookup-count k d fresh))

  lookup-head : (k : String) (v : Ua) (d : Dict Ua) → lookup k ((k, v) ∷ d) ≡ some v
  unfolding lookup
  lookup-head k v d = rw (str_eq_refl k) refl

  -- A BYE takes the first call of the dict out.
  send_bye-uacs :
      (k reason : String) (v : Ua) (d : Dict Ua) (u : MockSipUac Ua Callback)
      → u.uacs ≡ (k, v) ∷ d
      → count k (keys d) ≡ 0
      → ((send_bye Ua Callback k reason u).uacs ≡ d)
        × ((send_bye Ua Callback k reason u).disconnected ≡ v ∷ u.disconnected)
  unfolding send_bye
  send_bye-uacs k reason v d u here fresh =
      let w = record u { uacs = remove k u.uacs } in
      let (left, told) =
        cleanup_call-uacs k reason (disconnect_ua Ua Callback (lookup k u.uacs) w) in
      (
        left
            ∙ ap (remove k) (disconnect_ua-uacs (lookup k u.uacs) w)
            ∙ ap (λ x. remove k (remove k x)) here
            ∙ remove-head k v d fresh,
        told ∙ disconnect_ua-some (lookup k u.uacs) v w (ap (lookup k) here ∙ lookup-head k v d),
      )

  pub disconnect_each-uacs :
      (d : Dict Ua) (u : MockSipUac Ua Callback)
      → u.uacs ≡ d
      → IsDict d
      → ((disconnect_each Ua Callback (keys d) u).uacs ≡ [])
        × ((disconnect_each Ua Callback (keys d) u).disconnected ≡ agents_then d u.disconnected)
  disconnect_each-uacs [] u here dict = (here, refl)
  disconnect_each-uacs ((k, v) ∷ d) u here dict =
      let (left, told) = send_bye-uacs k "pool_stopped" v d u here dict.0 in
      let (none_left, all) =
        disconnect_each-uacs d (send_bye Ua Callback k "pool_stopped" u) left dict.1 in
      (none_left, all ∙ ap (agents_then d) told)
