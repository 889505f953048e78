-- ===== src/SbcMock/ReturnUas/Laws.antt =====
-- The return side answers every call in order: 180, 200 and the BYE (src/s_sbc_mock/uas.py).
use rdparty_as_poc.Prelude.{
  ℕ, zero, suc, ◌+◌, ◌≤◌, String, ◌≡◌, refl, subst, Bool, false, some, List, [], ◌∷◌, ◌++◌, ◌==◌,
  if◌then◌else◌, arith, inl, inr, Option-cases,
}
use rdparty_as_poc.SbcMock.ReturnUas.{
  Request, Timer, Sent, Event, ReturnUas, record_invite, recv_request, on_event, fire, take, Action,
  act, run, make,
}

-- How many elements pass a test.
abbrev pub count_if {ℓ} : {A : Type ℓ} → (A → Bool) → List A → ℕ
count_if p [] = 0
count_if p (x ∷ xs) = let rest = count_if p xs in if p x then suc rest else rest

count_if-append {ℓ} :
    {A : Type ℓ} (p : A → Bool) (xs : List A) (x : A)
    → count_if p (xs ++ x ∷ []) ≡ count_if p xs + (if p x then 1 else 0)
count_if-append p [] x = ground arith
count_if-append p (y ∷ xs) x = ground (arith, count_if-append p xs x)

-- A user agent's timers and what was done to it, by kind.
abbrev pub rings : ℕ → Timer → Bool
rings ua (Timer.ring x) = x == ua
rings ua _ = false

abbrev pub answers : ℕ → Timer → Bool
answers ua (Timer.answer x) = x == ua
answers ua _ = false

abbrev pub releases : ℕ → Timer → Bool
releases ua (Timer.release x) = x == ua
releases ua _ = false

abbrev pub rang : ℕ → Sent → Bool
rang ua (Sent.ringing x) = x == ua
rang ua _ = false

abbrev pub confirmed : ℕ → Sent → Bool
confirmed ua (Sent.ok x) = x == ua
confirmed ua _ = false

abbrev pub hung_up : ℕ → Sent → Bool
hung_up ua (Sent.disconnect x) = x == ua
hung_up ua _ = false

-- The stack has reported that the user agent took its call.
abbrev pub tries : ℕ → Action → Bool
tries ua (Action.reports Event.try x) = x == ua
tries ua _ = false

-- Every call that was tried is at one place of its way.
pub record IsOnTheWay (ua tried : ℕ) (u : ReturnUas) : Type 0 where
  pub waits_to_ring : tried ≡ count_if (rings ua) u.timers + count_if (rang ua) u.sent
  pub waits_to_answer :
      count_if (rang ua) u.sent ≡ count_if (answers ua) u.timers + count_if (confirmed ua) u.sent
  pub waits_to_release :
      count_if (confirmed ua) u.sent
      ≡ count_if (releases ua) u.timers + count_if (hung_up ua) u.sent

-- Taking a timer out leaves the others.
take-count_if :
    (p : Timer → Bool) (n : ℕ) (ts : List Timer) (t : Timer) (rest : List Timer)
    → take n ts ≡ some (t, rest)
    → count_if p ts ≡ count_if p (t ∷ rest)
unfolding take
take-count_if p n [] t rest h = cc
take-count_if p zero (x ∷ ts) t rest h = ground (arith, h)
take-count_if p (suc n) (x ∷ ts) t rest h = elim (Option-cases (take n ts)) [
  | inl nothing ↦ ground (arith, h, nothing)
  | inr ((y, ys), found) ↦ ground (arith, h, found, take-count_if p n ts y ys found)
]

take-IsOnTheWay :
    (ua tried n : ℕ) (u : ReturnUas) (t : Timer) (rest : List Timer)
    → take n u.timers ≡ some (t, rest)
    → IsOnTheWay ua tried u
    → IsOnTheWay ua tried (record u { timers = t ∷ rest })
take-IsOnTheWay ua tried n u t rest h way = record {
  waits_to_ring = omega (arith, way.waits_to_ring, take-count_if (rings ua) n u.timers t rest h);
  waits_to_answer =
      omega (arith, way.waits_to_answer, take-count_if (answers ua) n u.timers t rest h);
  waits_to_release =
      omega (arith, way.waits_to_release, take-count_if (releases ua) n u.timers t rest h);
}

sent_counts :
    (ua : ℕ) (x : Sent) (u : ReturnUas)
    → (count_if (rang ua) (u.sent ++ x ∷ [])
        ≡ count_if (rang ua) u.sent + (if rang ua x then 1 else 0))
      × (count_if (confirmed ua) (u.sent ++ x ∷ [])
          ≡ count_if (confirmed ua) u.sent + (if confirmed ua x then 1 else 0))
      × (count_if (hung_up ua) (u.sent ++ x ∷ [])
          ≡ count_if (hung_up ua) u.sent + (if hung_up ua x then 1 else 0))
sent_counts ua x u = (
  count_if-append (rang ua) u.sent x,
  count_if-append (confirmed ua) u.sent x,
  count_if-append (hung_up ua) u.sent x,
)

-- The callback of a timer that was taken out moves the call on.
fire-IsOnTheWay :
    (ua tried : ℕ) (t : Timer) (call_id : String) (rest : List Timer) (u : ReturnUas)
    → IsOnTheWay ua tried (record u { timers = t ∷ rest })
    → IsOnTheWay ua tried (fire t call_id (record u { timers = rest }))
unfolding fire
fire-IsOnTheWay ua tried (Timer.ring x) call_id rest u way =
    let (p, q, r) = sent_counts ua (Sent.ringing x) u in
    record {
      waits_to_ring = ground (arith, way.waits_to_ring, p);
      waits_to_answer = ground (arith, way.waits_to_answer, p, q);
      waits_to_release = ground (arith, way.waits_to_release, q, r);
    }
fire-IsOnTheWay ua tried (Timer.answer x) call_id rest u way =
    let (p, q, r) = sent_counts ua (Sent.ok x) u in
    record {
      waits_to_ring = ground (arith, way.waits_to_ring, p);
      waits_to_answer = ground (arith, way.waits_to_answer, p, q);
      waits_to_release = ground (arith, way.waits_to_release, q, r);
    }
fire-IsOnTheWay ua tried (Timer.release x) call_id rest u way =
    let (p, q, r) = sent_counts ua (Sent.disconnect x) u in
    record {
      waits_to_ring = ground (arith, way.waits_to_ring, p);
      waits_to_answer = ground (arith, way.waits_to_answer, p, q);
      waits_to_release = ground (arith, way.waits_to_release, q, r);
    }

-- What is told of a request leaves the timers and what was sent.
recv_request-quiet :
    (r : Request) (x : ℕ) (u : ReturnUas)
    → ((recv_request r x u).1.timers ≡ u.timers) × ((recv_request r x u).1.sent ≡ u.sent)
unfolding recv_request record_invite
recv_request-quiet r x u = ground arith

act-IsOnTheWay :
    (ua tried : ℕ) (a : Action) (u : ReturnUas)
    → IsOnTheWay ua tried u
    → IsOnTheWay ua (tried + (if tries ua a then 1 else 0)) (act a u)
unfolding act on_event
act-IsOnTheWay ua tried (Action.receives r x) u way =
    let (same_timers, same_sent) = recv_request-quiet r x u in
    record {
      waits_to_ring = rw (same_timers, same_sent) (omega (arith, way.waits_to_ring));
      waits_to_answer = rw (same_timers, same_sent) way.waits_to_answer;
      waits_to_release = rw (same_timers, same_sent) way.waits_to_release;
    }
act-IsOnTheWay ua tried (Action.reports e x) u way = record {
  waits_to_ring = ground (arith, way.waits_to_ring);
  waits_to_answer = ground (arith, way.waits_to_answer);
  waits_to_release = ground (arith, way.waits_to_release);
}
act-IsOnTheWay ua tried (Action.passes e x) u way = record {
  waits_to_ring = omega (arith, way.waits_to_ring);
  waits_to_answer = way.waits_to_answer;
  waits_to_release = way.waits_to_release;
}
act-IsOnTheWay ua tried (Action.fires n call_id) u way = elim (Option-cases (take n u.timers)) [
  | inl nothing ↦ rw nothing (grows way)
  | inr ((t, rest), found) ↦ rw found (
      grows
        (fire-IsOnTheWay ua tried t call_id rest u (take-IsOnTheWay ua tried n u t rest found way)))
]
  where
    grows : {v : ReturnUas} → IsOnTheWay ua tried v → IsOnTheWay ua (tried + 0) v
    grows way = record {
      waits_to_ring = omega (arith, way.waits_to_ring);
      waits_to_answer = way.waits_to_answer;
      waits_to_release = way.waits_to_release;
    }

run-IsOnTheWay :
    (ua : ℕ) (actions : List Action) (tried : ℕ) (u : ReturnUas)
    → IsOnTheWay ua tried u
    → IsOnTheWay ua (tried + count_if (tries ua) actions) (run actions u)
run-IsOnTheWay ua [] tried u way = record {
  waits_to_ring = omega (arith, way.waits_to_ring);
  waits_to_answer = way.waits_to_answer;
  waits_to_release = way.waits_to_release;
}
run-IsOnTheWay ua (a ∷ actions) tried u way =
    subst (λ n. IsOnTheWay ua n (run actions (act a u))) (ground arith)
      (run-IsOnTheWay ua actions (tried + (if tries ua a then 1 else 0)) (act a u)
        (act-IsOnTheWay ua tried a u way))

-- However requests, events and timers follow one another, each user agent that took its call is at one
-- place of its way: it waits for the 180, or has it and waits for the 200, or has both and waits for
-- the BYE, or has all three, each as often as it took a call; and none is sent before the one in front
-- of it.
pub run-answers :
    (passthrough callback : Bool) (actions : List Action) (ua : ℕ)
    → let u = run actions (make passthrough callback) in
      IsOnTheWay ua (count_if (tries ua) actions) u
      × (count_if (hung_up ua) u.sent ≤ count_if (confirmed ua) u.sent)
      × (count_if (confirmed ua) u.sent ≤ count_if (rang ua) u.sent)
      × (count_if (rang ua) u.sent ≤ count_if (tries ua) actions)
run-answers passthrough callback actions ua =
    let way =
      run-IsOnTheWay ua actions 0 (make passthrough callback)
        (record { waits_to_ring = refl; waits_to_answer = refl; waits_to_release = refl }) in
    (
      subst (λ n. IsOnTheWay ua n (run actions (make passthrough callback))) (omega arith) way,
      omega (arith, way.waits_to_release),
      omega (arith, way.waits_to_answer),
      omega (arith, way.waits_to_ring),
    )
