-- ===== src/TrunkUac/Laws.antt =====
-- What the caller's side has observed of a call is never forgotten, and is never mixed up with another
-- call (src/s_sbc_mock/uac.py).
use rdparty_as_poc.Prelude.{
  Bool, false, String, ◌≡◌, refl, ◌∙◌, inl, inr, true, Option, none, some, List, [], ◌∷◌, ◌++◌,
  arith, is_some, str_eq, eq_iff, Bool-cases, if◌then◌else◌,
}
use rdparty_as_poc.TrunkUac.{
  CallScenario, CallOutcome, Event, TrunkUac, Change, unless_none, amend, update, outcome_for,
  send_trunk_invite, place_call, on_event, abandon_call,
}

abbrev pub amended : Change → Option CallOutcome → Option CallOutcome
amended c none = none
amended c (some o) = some (amend c o)

-- An update of a call changes what is recorded of it, as it says, and of no other call.
pub outcome_for-update :
    (id j : String) (c : Change) (os : List CallOutcome)
    → outcome_for j (update id c os)
      ≡ (if str_eq id j then amended c (outcome_for j os) else outcome_for j os)
unfolding outcome_for update
outcome_for-update id j c [] = ground arith
outcome_for-update id j c (o ∷ os) =
    ground
      (arith, outcome_for-update id j c os, eq_iff o.call_id id, eq_iff o.call_id j, eq_iff id j)

-- One test holds only where another does.
abbrev pub only_if : Bool → Bool → Bool
only_if true b = b
only_if false b = true

only_if_trans : (a b c : Bool) → only_if a b ≡ true → only_if b c ≡ true → only_if a c ≡ true
only_if_trans a b c h k = ground arith

-- What an outcome may become: a status stays one, and what has happened has happened.
pub record IsLater (o q : CallOutcome) : Type 0 where
  pub same_call : q.call_id ≡ o.call_id
  pub same_scenario : q.scenario_name ≡ o.scenario_name
  pub status : only_if (is_some o.status) (is_some q.status) ≡ true
  pub released : only_if o.released q.released ≡ true
  pub cancelled : only_if o.cancelled q.cancelled ≡ true

-- A change that takes nothing back.
abbrev IsForward : Change → Type 0
IsForward c = (unless_none c.released true ≡ true) × (unless_none c.cancelled true ≡ true)

IsLater-refl : (o : CallOutcome) → IsLater o o
IsLater-refl o = record {
  same_call = refl;
  same_scenario = refl;
  status = ground arith;
  released = ground arith;
  cancelled = ground arith;
}

IsLater-trans : {o q r : CallOutcome} → IsLater o q → IsLater q r → IsLater o r
IsLater-trans {o} {q} {r} a b = record {
  same_call = b.same_call ∙ a.same_call;
  same_scenario = b.same_scenario ∙ a.same_scenario;
  status = only_if_trans (is_some o.status) (is_some q.status) (is_some r.status) a.status b.status;
  released = only_if_trans o.released q.released r.released a.released b.released;
  cancelled = only_if_trans o.cancelled q.cancelled r.cancelled a.cancelled b.cancelled;
}

amend-IsLater : (c : Change) (o : CallOutcome) → IsForward c → IsLater o (amend c o)
amend-IsLater c o forward = record {
  same_call = refl;
  same_scenario = refl;
  status = ground arith;
  released = ground (arith, forward);
  cancelled = ground (arith, forward);
}

-- What is recorded of every call is kept.
abbrev IsKept : List CallOutcome → List CallOutcome → Type 0
IsKept os qs =
    (id : String) (o : CallOutcome)
    → outcome_for id os ≡ some o
    → (q : CallOutcome) × (outcome_for id qs ≡ some q) × IsLater o q

update-IsKept :
    (call_id : String) (c : Change) (os : List CallOutcome)
    → IsForward c
    → IsKept os (update call_id c os)
update-IsKept call_id c os forward id o found = elim (Bool-cases (str_eq call_id id)) [
  | inl same ↦ (
    amend c o,
    outcome_for-update call_id id c os ∙ rw (same, found) refl,
    amend-IsLater c o forward,
  )
  | inr differs ↦ (o, outcome_for-update call_id id c os ∙ rw (differs, found) refl, IsLater-refl o)
]

outcome_for-append :
    (id : String) (os : List CallOutcome) (x : CallOutcome) {o : CallOutcome}
    → outcome_for id os ≡ some o
    → outcome_for id (os ++ x ∷ []) ≡ some o
unfolding outcome_for
outcome_for-append id [] x h = cc
outcome_for-append id (y ∷ ys) x {o} h = ground (arith, outcome_for-append id ys x {o = o})

append-IsKept : (os : List CallOutcome) (x : CallOutcome) → IsKept os (os ++ x ∷ [])
append-IsKept os x id o found = (o, outcome_for-append id os x found, IsLater-refl o)

-- What may happen on the caller's side: a call is placed, the stack has an event, or a caller gives up.
pub data Step (u v : TrunkUac) : Type 0 where
  places : (s : CallScenario) (id : String) → v ≡ (place_call s id u).1 → Step u v
  sends :
      (s : CallScenario) (suffix id : String) → v ≡ (send_trunk_invite s suffix id u).1 → Step u v
  observes : (e : Event) (s : CallScenario) (id : String) → v ≡ on_event e s id u → Step u v
  abandons : (id : String) → v ≡ abandon_call id u → Step u v

pub data Reach (u : TrunkUac) : TrunkUac → Type 0 where
  here : Reach u u
  next : {v w : TrunkUac} → Reach u v → Step v w → Reach u w

on_event-IsKept :
    (e : Event) (s : CallScenario) (id : String) (u : TrunkUac)
    → IsKept u.outcomes (on_event e s id u).outcomes
unfolding on_event
on_event-IsKept Event.ring s id u = elim (Bool-cases s.abandon) [
  | inl gives_up ↦ rw gives_up (λ j o found. (o, found, IsLater-refl o))
  | inr waits ↦ rw waits (λ j o found. (o, found, IsLater-refl o))
]
on_event-IsKept (Event.connect d) s id u = update-IsKept id _ u.outcomes (refl, refl)
on_event-IsKept (Event.fail d) s id u = update-IsKept id _ u.outcomes (refl, refl)
on_event-IsKept Event.disconnect s id u = update-IsKept id _ u.outcomes (refl, refl)
on_event-IsKept Event.other s id u = λ j o found. (o, found, IsLater-refl o)

place-IsKept :
    (s : CallScenario) (id : String) (u : TrunkUac)
    → IsKept u.outcomes (place_call s id u).1.outcomes
unfolding place_call
place-IsKept s id u = elim (Bool-cases u.bound) [
  | inl bound ↦ rw bound (append-IsKept u.outcomes _)
  | inr unbound ↦ rw unbound (λ j o found. (o, found, IsLater-refl o))
]

send-IsKept :
    (s : CallScenario) (suffix id : String) (u : TrunkUac)
    → IsKept u.outcomes (send_trunk_invite s suffix id u).1.outcomes
unfolding send_trunk_invite
send-IsKept s suffix id u = elim (Bool-cases u.bound) [
  | inl bound ↦ rw bound (append-IsKept u.outcomes _)
  | inr unbound ↦ rw unbound (λ j o found. (o, found, IsLater-refl o))
]

Step-IsKept : (u v : TrunkUac) → Step u v → IsKept u.outcomes v.outcomes
unfolding abandon_call
Step-IsKept u v (places s id e) = rw e (place-IsKept s id u)
Step-IsKept u v (sends s suffix id e) = rw e (send-IsKept s suffix id u)
Step-IsKept u v (observes e s id x) = rw x (on_event-IsKept e s id u)
Step-IsKept u v (abandons id e) = rw e (update-IsKept id _ u.outcomes (refl, refl))

-- Whatever calls are placed and whatever the stack reports, in any order, a call that is recorded stays
-- recorded, under its scenario; a status that it has had does not vanish, and it stays released and
-- cancelled once it was.
pub Reach-IsLater :
    (u v : TrunkUac) (id : String) (o : CallOutcome)
    → Reach u v
    → outcome_for id u.outcomes ≡ some o
    → (q : CallOutcome) × (outcome_for id v.outcomes ≡ some q) × IsLater o q
Reach-IsLater u _ id o here found = (o, found, IsLater-refl o)
Reach-IsLater u w id o (next {v = v} r step) found =
    let (q, known, later) = Reach-IsLater u v id o r found in
    let (x, known', after) = Step-IsKept v w step id q known in
    (x, known', IsLater-trans later after)
