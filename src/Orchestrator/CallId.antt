-- ===== src/Orchestrator/CallId.antt =====
-- src/ims_mock/chained_stack.py: the Call-ID of a leg behind a back-to-back user agent, which appends
-- a suffix, and that of the leg before it.
use Prim.Native.String.{slice, len}
use text.Mathlib.TextPositions.{len-append, slice-append_right, slice-append_left}
use rdparty_as_poc.Prelude.{
  ◌-◌, String, ◌<>◌, ◌≡◌, Bool, true, ◌&&◌, leb, if◌then◌else◌, str_eq, str_eq_refl, arith,
}

-- `_B2B_SUFFIX`
abbrev pub b2b_suffix : String
b2b_suffix = "-b2b_1"

-- `s.endswith(t)`
unfoldable pub ends_with : String → String → Bool
ends_with s t = leb (len t) (len s) && str_eq (slice s (len s - len t) (len s)) t

-- `_parent_call_id`
unfoldable pub parent_call_id : String → String
parent_call_id call_id =
    if ends_with call_id b2b_suffix then slice call_id 0 (len call_id - len b2b_suffix) else call_id

minus : (s t : String) → len (s <> t) - len t ≡ len s
minus s t = omega (arith, len-append s t)

pub ends_with-append : (s t : String) → ends_with (s <> t) t ≡ true
unfolding ends_with
ends_with-append s t =
    rw (minus s t, len-append s t, slice-append_right s t, str_eq_refl t) (ground arith)

-- The parent of a suffixed Call-ID is the Call-ID, whether or not it ends with the suffix itself.
pub parent_call_id-append : (s : String) → parent_call_id (s <> b2b_suffix) ≡ s
unfolding parent_call_id
parent_call_id-append s =
    rw (ends_with-append s b2b_suffix, minus s b2b_suffix) (slice-append_left s b2b_suffix)
