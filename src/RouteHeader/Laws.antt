-- ===== src/RouteHeader/Laws.antt =====
-- The `Route` entry of the S-SBC is read back (src/as_app/route_header.py over
-- src/s_sbc_mock/uac.py).
use text.Mathlib.TextLemmas.{cons-append, nil-append}
use text.Mathlib.TextPositions.{starts_with-append}
use rdparty_as_poc.Prelude.{
  ℕ, Char, String, ◌<>◌, ◌≡◌, refl, ap, ◌∙◌, ◌≢◌, true, false, Option, some, List, ◌∷◌, arith,
  str_eq, eq_iff,
}
use rdparty_as_poc.Prelude.Decimal.{show, is_digit, show-starts, read_from-show_append}
use rdparty_as_poc.Routing.Engine.Translation.{remove_prefix-append}
use rdparty_as_poc.Routing.Rules.{NextHop}
use rdparty_as_poc.RouteHeader.{
  is_host, take_host, drop_host, closes, match_behind, match_at, search, parse_top_route_target,
  wire_hop, route_entry,
}

-- A text of host characters only.
abbrev pub IsHost : String → Type 0
IsHost String.[] = Unit
IsHost (String.◌∷◌ c s) = (is_host c ≡ true) × IsHost s

take_host-append :
    (xs : String) (c : Char) (rest : String)
    → IsHost xs
    → is_host c ≡ false
    → take_host (xs <> String.◌∷◌ c rest) ≡ xs
unfolding take_host
take_host-append String.[] c rest h stop = rw (nil-append (String.◌∷◌ c rest), stop)
take_host-append (String.◌∷◌ x xs) c rest h stop =
    rw (cons-append x xs (String.◌∷◌ c rest), h.0)
      (ap (String.◌∷◌ x) (take_host-append xs c rest h.1 stop))

drop_host-append :
    (xs : String) (c : Char) (rest : String)
    → IsHost xs
    → is_host c ≡ false
    → drop_host (xs <> String.◌∷◌ c rest) ≡ String.◌∷◌ c rest
unfolding drop_host
drop_host-append String.[] c rest h stop = rw (nil-append (String.◌∷◌ c rest), stop)
drop_host-append (String.◌∷◌ x xs) c rest h stop =
    rw (cons-append x xs (String.◌∷◌ c rest), h.0) (drop_host-append xs c rest h.1 stop)

closes-append : (xs ys : String) → closes ys ≡ true → closes (xs <> ys) ≡ true
unfolding closes
closes-append String.[] ys h = rw (nil-append ys) h
closes-append (String.◌∷◌ x xs) ys h =
    rw (cons-append x xs ys) (ground (arith, closes-append xs ys h))

search-match : (s : String) {m : String × Option ℕ} → match_at s ≡ some m → search s ≡ some m
unfolding search match_at
search-match String.[] h = cc
search-match (String.◌∷◌ c s) h = rw h

module _ (host : String) (port : ℕ) (ne : host ≢ "") (only : IsHost host) where
  abbrev rest_of : String
  rest_of = show port <> ";lr>"

  match_behind-entry : match_behind (host <> String.◌∷◌ ":" rest_of) ≡ some (host, some port)
  unfolding closes is_host is_digit
  match_behind-entry =
      let usable : str_eq host "" ≡ false = ground (arith, eq_iff host "") in
      let closed : closes rest_of ≡ true = closes-append (show port) ";lr>" refl in
      rw (
        take_host-append host ":" rest_of only refl,
        drop_host-append host ":" rest_of only refl,
        usable,
        closed,
        show-starts port ";lr>",
        read_from-show_append port ";lr>" refl,
      )

  match_at-entry : match_at (route_entry host port) ≡ some (host, some port)
  unfolding match_at route_entry
  match_at-entry =
      let behind = host <> (":" <> rest_of) in
      let colon : ":" <> rest_of ≡ String.◌∷◌ ":" rest_of =
        cons-append ":" "" rest_of ∙ ap (String.◌∷◌ ":") (nil-append rest_of) in
      rw (starts_with-append "<sip:" behind, remove_prefix-append "<sip:" behind)
        (ap (λ t. match_behind (host <> t)) colon ∙ match_behind-entry)

  -- The `Route` entry that the S-SBC writes for a host and a port is read back as that host and that
  -- port, whatever entries follow it and whatever the default port, where the host is not empty and
  -- has none of the characters that end a host. The second leg is then sent to that address, under the
  -- name and with the priority of the hop that was decided.
  pub parse_top_route_target-route_entry :
      (others : List String) (default_port : ℕ) (hop : NextHop)
      → let target = parse_top_route_target (some (route_entry host port ∷ others)) default_port in
        (target ≡ some (host, port))
        × ((wire_hop target hop).address ≡ host)
        × ((wire_hop target hop).port ≡ port)
        × ((wire_hop target hop).name ≡ hop.name)
        × ((wire_hop target hop).priority ≡ hop.priority)
  unfolding parse_top_route_target wire_hop
  parse_top_route_target-route_entry others default_port hop =
      let found = search-match (route_entry host port) match_at-entry in
      rw found (refl, refl, refl, refl, refl)
