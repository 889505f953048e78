-- ===== src/SbcMock/ReturnUas/Waiting.antt =====
-- `wait_for_invite` of src/s_sbc_mock/uas.py: the loop that drives the SIP stack until an INVITE is
-- there or the time is up.
--
-- Each round of the loop reads the clock and runs the stack for a slice, in which INVITEs may arrive.
-- The rounds are an argument, and a list of them that is too short is told apart. Floats are a
-- parameter.
use mathlib.Core.List.{Memᴰ}
use rdparty_as_poc.Prelude.{
  String, ◌≡◌, refl, Bool, true, Option, none, some, List, [], ◌∷◌, ◌++◌, any, Result, ok, err,
  if◌then◌else◌, ◌⊎◌, inl, inr, Bool-cases,
}
use rdparty_as_poc.Prelude.Float.{Floats}
use rdparty_as_poc.SbcMock.ReturnUas.{ReceivedInvite}

-- `self.received_invites[-1]`, where there is one
abbrev pub last : ReceivedInvite → List ReceivedInvite → ReceivedInvite
last i [] = i
last i (j ∷ js) = last j js

module _ (f : Floats) where
  -- A round: the clock that it reads, and what arrives in its slice.
  pub record Round : Type 0 where
    pub now : f.Float
    pub arrives : List ReceivedInvite

  -- The loop of `wait_for_invite`.
  unfoldable pub wait_until :
      f.Float → List ReceivedInvite → List Round → Option (Result String ReceivedInvite)
  wait_until deadline (i ∷ is) rounds = some (ok (last i is))
  wait_until deadline [] [] = none
  wait_until deadline [] (r ∷ rounds) =
      let rest = wait_until deadline r.arrives rounds in
      if f.leb (f.sub deadline r.now) f.zero then some (err "TimeoutError") else rest

  -- `wait_for_invite`, with the clock that the deadline is taken from
  abbrev pub wait_for_invite :
      f.Float → f.Float → List ReceivedInvite → List Round → Option (Result String ReceivedInvite)
  wait_for_invite timeout_seconds start received rounds =
      wait_until (f.add start timeout_seconds) received rounds

  -- A clock that has passed the deadline in some round.
  abbrev pub is_late : f.Float → Round → Bool
  is_late deadline r = f.leb (f.sub deadline r.now) f.zero

  -- What has arrived by the end of the loop.
  abbrev pub arrived : List ReceivedInvite → List Round → List ReceivedInvite
  arrived is [] = is
  arrived is (r ∷ rs) = is ++ arrived r.arrives rs

  -- A round that is late, with nothing that had arrived by then.
  abbrev pub TimesOut : f.Float → List ReceivedInvite → List Round → Type 0
  TimesOut deadline is [] = ⊥
  TimesOut deadline is (r ∷ rounds) =
      (is ≡ []) × ((is_late deadline r ≡ true) ⊎ TimesOut deadline r.arrives rounds)

  -- What the loop comes to.
  abbrev pub Ends :
      f.Float → List ReceivedInvite → List Round → Option (Result String ReceivedInvite) → Type 0
  Ends deadline is rounds none = ⊥
  Ends deadline is rounds (some (ok i)) = Memᴰ i (arrived is rounds)
  Ends deadline is rounds (some (err e)) = (e ≡ "TimeoutError") × TimesOut deadline is rounds

  last-Memᴰ : (i : ReceivedInvite) (is : List ReceivedInvite) → Memᴰ (last i is) (i ∷ is)
  last-Memᴰ i [] = Memᴰ.head refl
  last-Memᴰ i (j ∷ js) = Memᴰ.tail (last-Memᴰ j js)

  Memᴰ-append : {i : ReceivedInvite} (xs ys : List ReceivedInvite) → Memᴰ i xs → Memᴰ i (xs ++ ys)
  Memᴰ-append [] ys m = elim m [ ]
  Memᴰ-append (x ∷ xs) ys (Memᴰ.head e) = Memᴰ.head e
  Memᴰ-append (x ∷ xs) ys (Memᴰ.tail m) = Memᴰ.tail (Memᴰ-append xs ys m)

  arrived-Memᴰ :
      {i : ReceivedInvite} (is : List ReceivedInvite) (rounds : List Round)
      → Memᴰ i is
      → Memᴰ i (arrived is rounds)
  arrived-Memᴰ is [] m = m
  arrived-Memᴰ is (r ∷ rounds) m = Memᴰ-append is (arrived r.arrives rounds) m

  Ends-later :
      (deadline : f.Float) (r : Round) (rounds : List Round)
      (o : Option (Result String ReceivedInvite))
      → Ends deadline r.arrives rounds o
      → Ends deadline [] (r ∷ rounds) o
  Ends-later deadline r rounds none h = h
  Ends-later deadline r rounds (some (ok i)) h = h
  Ends-later deadline r rounds (some (err e)) h = (h.0, (refl, inr h.1))

  wait_until-Ends :
      (deadline : f.Float) (rounds : List Round) (is : List ReceivedInvite)
      → any (is_late deadline) rounds ≡ true
      → Ends deadline is rounds (wait_until deadline is rounds)
  unfolding wait_until
  wait_until-Ends deadline rounds (i ∷ is) late = arrived-Memᴰ (i ∷ is) rounds (last-Memᴰ i is)
  wait_until-Ends deadline [] [] late = cc
  wait_until-Ends deadline (r ∷ rounds) [] late = elim (Bool-cases (is_late deadline r)) [
    | inl now ↦ rw now (refl, (refl, inl now))
    | inr early ↦ rw early (
        Ends-later deadline r rounds _
          (wait_until-Ends deadline rounds r.arrives (rw early at late)))
  ]

  -- Where the clock passes the deadline in some round, the loop ends: it returns an INVITE that had
  -- arrived or arrives in one of the rounds, or it raises `TimeoutError` in a late round, and nothing had
  -- arrived by then.
  pub wait_for_invite-Ends :
      (timeout_seconds start : f.Float) (received : List ReceivedInvite) (rounds : List Round)
      → any (is_late (f.add start timeout_seconds)) rounds ≡ true
      → Ends
          (f.add start timeout_seconds)
          received
          rounds
          (wait_for_invite timeout_seconds start received rounds)
  wait_for_invite-Ends timeout_seconds start received rounds late =
      wait_until-Ends (f.add start timeout_seconds) rounds received late
