-- ===== src/RouteHeader.antt =====
-- src/as_app/route_header.py and src/anti_fraud_as/route_header.py, which have the same code: the host
-- and port of the top `Route` entry, and where the second leg is sent.
--
-- The bodies of the header come from the SIP stack and are a parameter. A digit is an ASCII digit, and
-- a port has at most the 4,300 digits that Python's `int` reads.
pub mod Laws
use rdparty_as_poc.Prelude.{
  ℕ, Char, code, String, ◌<>◌, Bool, true, false, not, ◌||◌, Option, none, some, List, [], ◌∷◌,
  ◌==◌, if◌then◌else◌, str_eq, starts_with, remove_prefix,
}
use rdparty_as_poc.Prelude.Whitespace.{is_space}
use rdparty_as_poc.Prelude.Decimal.{show, starts_with_digit, read_from}
use rdparty_as_poc.Routing.Rules.{NextHop}

-- `[^:>;\s]`
unfoldable pub is_host : Char → Bool
unfolding is_space
is_host c = not (code c == b':' || (code c == b'>' || (code c == b';' || is_space (code c))))

-- The longest run of host characters in front of a text, and what follows it.
unfoldable pub take_host : String → String
take_host String.[] = ""
take_host (String.◌∷◌ c s) = let rest = take_host s in if is_host c then String.◌∷◌ c rest else ""

unfoldable pub drop_host : String → String
drop_host String.[] = ""
drop_host (String.◌∷◌ c s) = let rest = drop_host s in if is_host c then rest else String.◌∷◌ c s

-- Whether `[^>]*>` matches in front of a text.
unfoldable pub closes : String → Bool
closes String.[] = false
closes (String.◌∷◌ c s) = code c == b'>' || closes s

-- `(?::(\d+))?`
abbrev pub digits_of : String → Option ℕ
digits_of s = if starts_with_digit s then some (read_from 0 s) else none

abbrev pub port_of : String → Option ℕ
port_of String.[] = none
port_of (String.◌∷◌ c s) = if code c == b':' then digits_of s else none

-- The rest of the expression behind `<sip:`. What it takes is the longest host and the longest port: a
-- shorter one leaves the same `>` to be found.
abbrev pub match_behind : String → Option (String × Option ℕ)
match_behind s =
    if str_eq (take_host s) ""
    then none
    else (if closes (drop_host s) then some (take_host s, port_of (drop_host s)) else none)

-- `_ROUTE_URI_RE` at the beginning of a text.
unfoldable pub match_at : String → Option (String × Option ℕ)
match_at s = if starts_with s "<sip:" then match_behind (remove_prefix "<sip:" s) else none

abbrev pub or_else :
    Option (String × Option ℕ) → Option (String × Option ℕ) → Option (String × Option ℕ)
or_else none y = y
or_else (some x) y = some x

-- `_ROUTE_URI_RE.search`: the first place where it matches.
unfoldable pub search : String → Option (String × Option ℕ)
search String.[] = none
search (String.◌∷◌ c s) = or_else (match_at (String.◌∷◌ c s)) (search s)

-- `int(m.group(2)) if m.group(2) else default_port`
abbrev pub target_of : ℕ → Option (String × Option ℕ) → Option (String × ℕ)
target_of default_port none = none
target_of default_port (some (host, none)) = some (host, default_port)
target_of default_port (some (host, some port)) = some (host, port)

-- `parse_top_route_target`, over the bodies of the header, `none` where there is no request or the
-- stack raises.
unfoldable pub parse_top_route_target : Option (List String) → ℕ → Option (String × ℕ)
parse_top_route_target none default_port = none
parse_top_route_target (some []) default_port = none
parse_top_route_target (some (top ∷ rest)) default_port = target_of default_port (search top)

-- `_originate_towards` of both call controllers: the hop that the second leg is sent to.
unfoldable pub wire_hop : Option (String × ℕ) → NextHop → NextHop
wire_hop none hop = hop
wire_hop (some (address, port)) hop = record hop { address = address; port = port }

-- The `Route` entry that the S-SBC mock inserts (src/s_sbc_mock/uac.py).
unfoldable pub route_entry : String → ℕ → String
route_entry host port = "<sip:" <> (host <> (":" <> (show port <> ";lr>")))
