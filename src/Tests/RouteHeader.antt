-- ===== src/Tests/RouteHeader.antt =====
-- Runs of the Route header parser (src/as_app/route_header.py).
use rdparty_as_poc.Prelude.{String, ◌≡◌, refl, ◌≢◌, none, some, [], ◌∷◌}
use rdparty_as_poc.Prelude.Decimal.{is_digit, read_from}
use rdparty_as_poc.RouteHeader.{
  is_host, take_host, drop_host, closes, match_at, search, parse_top_route_target, wire_hop,
  route_entry,
}
use rdparty_as_poc.RouteHeader.Laws.{IsHost, parse_top_route_target-route_entry}
use rdparty_as_poc.Tests.Samples.{hop}

-- A route without a port, behind a display name.
parse-default :
    parse_top_route_target (some ("SBC <sip:10.0.0.7;lr>" ∷ [])) 5060 ≡ some ("10.0.0.7", 5060)
unfolding parse_top_route_target search match_at take_host drop_host closes is_host is_digit
    read_from
parse-default = refl

parse-open : parse_top_route_target (some ("<sip:10.0.0.7" ∷ [])) 5060 ≡ none
unfolding parse_top_route_target search match_at take_host drop_host closes is_host
parse-open = refl

sbc_ne : ◌≢◌ {A = String} "10.0.0.9" ""
sbc_ne = λ e. cc

sbc-IsHost : IsHost "10.0.0.9"
unfolding is_host
sbc-IsHost = (refl, (refl, (refl, (refl, (refl, (refl, (refl, (refl, tt))))))))

parse_top_route_target-route_entry_example :
    let target = parse_top_route_target (some (route_entry "10.0.0.9" 5070 ∷ [])) 5060 in
    (target ≡ some ("10.0.0.9", 5070))
    × ((wire_hop target (hop "core" 1)).address ≡ "10.0.0.9")
    × ((wire_hop target (hop "core" 1)).port ≡ 5070)
    × ((wire_hop target (hop "core" 1)).name ≡ "core")
    × ((wire_hop target (hop "core" 1)).priority ≡ 1)
parse_top_route_target-route_entry_example =
    parse_top_route_target-route_entry "10.0.0.9" 5070 sbc_ne sbc-IsHost [] 5060 (hop "core" 1)
