-- ===== src/Events/Publisher/Laws.antt =====
-- Who stays connected to the fan-out of the events (src/as_app/internal_api.py, `SimplePublisher`).
use rdparty_as_poc.Prelude.{
  ℕ, zero, suc, ◌≡◌, refl, Bool, true, false, not, ◌&&◌, ◌||◌, Option, none, some, List, [], ◌∷◌,
  ◌++◌, any, ◌==◌, is_empty, arith, All, All-map, inl, inr, Bool-cases,
}
use rdparty_as_poc.Events.Publisher.{
  member, add, discard, Broadcast, Send, SimplePublisher, connect, disconnect, disconnect_dead,
  begin_broadcast, empty, go_on, sent, mark, resume, resume_from, resume_at, keep, Action, act, run,
}

pub member-append : (x y : ℕ) (xs : List ℕ) → member x (xs ++ y ∷ []) ≡ (member x xs || (y == x))
member-append x y [] = ground arith
member-append x y (z ∷ xs) = ground (arith, member-append x y xs)

pub member-add : (x y : ℕ) (xs : List ℕ) → member x (add y xs) ≡ (member x xs || (y == x))
member-add x y xs = ground (arith, member-append x y xs, member_eq x y xs)
  where
    member_eq : (x y : ℕ) (xs : List ℕ) → y ≡ x → member x xs ≡ member y xs
    member_eq x y xs e = cc

pub member-discard :
    (x y : ℕ) (xs : List ℕ) → member x (discard y xs) ≡ (member x xs && not (y == x))
member-discard x y [] = refl
member-discard x y (z ∷ xs) = ground (arith, member-discard x y xs)

pub member-disconnect_dead :
    (x : ℕ) (ds : List ℕ) (p : SimplePublisher)
    → member x (disconnect_dead ds p).connections ≡ (member x p.connections && not (member x ds))
unfolding disconnect
member-disconnect_dead x [] p = ground arith
member-disconnect_dead x (d ∷ ds) p =
    ground (arith, member-disconnect_dead x ds (disconnect d p), member-discard x d p.connections)

-- A send to the connection has raised.
abbrev pub failed : ℕ → List Send → Bool
failed ws = any (λ s. s.raised && (s.ws == ws))

disconnect_dead-sends : (ds : List ℕ) (p : SimplePublisher) → (disconnect_dead ds p).sends ≡ p.sends
unfolding disconnect
disconnect_dead-sends [] p = refl
disconnect_dead-sends (d ∷ ds) p = disconnect_dead-sends ds (disconnect d p)

-- A broadcast disconnects a connection only once a send to it has raised.
abbrev IsMarked : ℕ → List Send → Broadcast → Type 0
IsMarked ws sends b = (not (member ws b.dead) || failed ws sends) ≡ true

-- The connection, once it has joined, is kept, unless a send to it has raised.
abbrev IsKept : Bool → ℕ → SimplePublisher → Type 0
IsKept joined ws p = (not joined || (member ws p.connections || failed ws p.sends)) ≡ true

-- What holds throughout a broadcast's step, which may or may not have another one.
abbrev StillMarked : ℕ → List Send → Option Broadcast → Type 0
StillMarked ws sends none = Unit
StillMarked ws sends (some b) = IsMarked ws sends b

mark-IsMarked :
    (ws w : ℕ) (raised : Bool) (b : Broadcast) (p : SimplePublisher)
    → IsMarked ws p.sends b
    → IsMarked ws (sent raised b w p).sends (mark raised w b)
mark-IsMarked ws w true b p h = ground (arith, member-append ws w b.dead)
mark-IsMarked ws w false b p h = ground arith

go_on-IsKept :
    (joined : Bool) (ws : ℕ) (b : Broadcast) (p : SimplePublisher) (rest : List ℕ)
    → IsMarked ws p.sends b
    → IsKept joined ws p
    → StillMarked ws p.sends (go_on b p rest).0 × IsKept joined ws (go_on b p rest).1
go_on-IsKept joined ws b p [] marked kept =
    (tt, ground (arith, member-disconnect_dead ws b.dead p, disconnect_dead-sends b.dead p))
go_on-IsKept joined ws b p (w ∷ rest) marked kept = (marked, kept)

go_on-sends :
    (b : Broadcast) (p : SimplePublisher) (rest : List ℕ) → (go_on b p rest).1.sends ≡ p.sends
go_on-sends b p [] = disconnect_dead-sends b.dead p
go_on-sends b p (w ∷ rest) = refl

-- A failure that was recorded stays recorded.
abbrev Grows : ℕ → List Send → List Send → Type 0
Grows ws old new = (not (failed ws old) || failed ws new) ≡ true

IsMarked-Grows :
    (ws : ℕ) (old new : List Send)
    → Grows ws old new
    → (b : Broadcast) → IsMarked ws old b
    → IsMarked ws new b
IsMarked-Grows ws old new grows b h = ground arith

-- What a step of one task keeps.
pub record IsStep (joined : Bool) (ws : ℕ) (p q : SimplePublisher) (o : Option Broadcast)
    : Type 0 where
  pub grows : Grows ws p.sends q.sends
  pub marked : StillMarked ws q.sends o
  pub kept : IsKept joined ws q

resume_from-IsStep :
    (joined : Bool) (ws : ℕ) (raised : Bool) (b : Broadcast) (p : SimplePublisher) (todo : List ℕ)
    → IsMarked ws p.sends b
    → IsKept joined ws p
    → IsStep joined ws p (resume_from raised b p todo).1 (resume_from raised b p todo).0
resume_from-IsStep joined ws raised b p [] marked kept = record {
  grows = ground arith;
  marked = tt;
  kept = kept;
}
resume_from-IsStep joined ws raised b p (w ∷ rest) marked kept =
    let q = sent raised b w p in
    let c = mark raised w b in
    let e = go_on-sends c q rest in
    let (m, k) =
      go_on-IsKept joined ws c q rest (mark-IsMarked ws w raised b p marked) (ground arith) in
    record { grows = rw e (ground arith); marked = rw e m; kept = k }

resume_at-IsKept :
    (joined : Bool) (ws n : ℕ) (raised : Bool) (bs : List Broadcast) (p : SimplePublisher)
    → All (IsMarked ws p.sends) bs
    → IsKept joined ws p
    → Grows ws p.sends (resume_at n raised bs p).1.sends
      × All (IsMarked ws (resume_at n raised bs p).1.sends) (resume_at n raised bs p).0
      × IsKept joined ws (resume_at n raised bs p).1
unfolding resume_at resume
resume_at-IsKept joined ws n raised [] p h kept = (ground arith, tt, kept)
resume_at-IsKept joined ws zero raised (b ∷ bs) p h kept =
    let s = resume_from-IsStep joined ws raised b p b.todo h.0 kept in
    (
      s.grows,
      keep_marked (resume_from raised b p b.todo).1.sends (resume_from raised b p b.todo).0 s.marked
          (All-map _ _ (IsMarked-Grows ws p.sends (resume_from raised b p b.todo).1.sends s.grows)
            bs h.1),
      s.kept,
    )
  where
    keep_marked :
        (sends : List Send) (o : Option Broadcast)
        → StillMarked ws sends o
        → All (IsMarked ws sends) bs
        → All (IsMarked ws sends) (keep o bs)
    keep_marked sends none m k = k
    keep_marked sends (some c) m k = (m, k)
resume_at-IsKept joined ws (suc n) raised (b ∷ bs) p h kept =
    let (grows, marked, k) = resume_at-IsKept joined ws n raised bs p h.1 kept in
    (grows, (IsMarked-Grows ws p.sends (resume_at n raised bs p).1.sends grows b h.0, marked), k)

-- The connection asks to leave.
abbrev pub leaves_it : ℕ → Action → Bool
leaves_it ws (Action.leaves w) = w == ws
leaves_it ws _ = false

module _ (order : List ℕ → List ℕ) where
  -- What holds between two steps of the loop.
  abbrev IsGood : Bool → ℕ → SimplePublisher → Type 0
  IsGood joined ws p = All (IsMarked ws p.sends) p.running × IsKept joined ws p

  All-append :
      (ws : ℕ) (sends : List Send) (bs : List Broadcast) (b : Broadcast)
      → All (IsMarked ws sends) bs
      → IsMarked ws sends b
      → All (IsMarked ws sends) (bs ++ b ∷ [])
  All-append ws sends [] b h m = (m, tt)
  All-append ws sends (c ∷ bs) b h m = (h.0, All-append ws sends bs b h.1 m)

  act-IsGood :
      (joined : Bool) (ws : ℕ) (a : Action) (p : SimplePublisher)
      → (joined && leaves_it ws a) ≡ false
      → IsGood joined ws p
      → IsGood joined ws (act order a p)
  unfolding act connect disconnect begin_broadcast
  act-IsGood joined ws (Action.connects w) p stays (marked, kept) =
      (marked, ground (arith, member-add ws w p.connections))
  act-IsGood joined ws (Action.leaves w) p stays (marked, kept) =
      (marked, ground (arith, member-discard ws w p.connections))
  act-IsGood joined ws (Action.begins message) p stays (marked, kept) =
      elim (Bool-cases (is_empty p.connections)) [
        | inl nobody ↦ rw nobody (marked, kept)
        | inr some_ws ↦ rw some_ws (All-append ws p.sends p.running _ marked refl, kept)
      ]
  act-IsGood joined ws (Action.resumes n raised) p stays (marked, kept) =
      let (grows, m, k) = resume_at-IsKept joined ws n raised p.running p marked kept in (m, k)

  run-IsGood :
      (joined : Bool) (ws : ℕ) (actions : List Action) (p : SimplePublisher)
      → (joined && any (leaves_it ws) actions) ≡ false
      → IsGood joined ws p
      → IsGood joined ws (run order actions p)
  run-IsGood joined ws [] p stays good = good
  run-IsGood joined ws (a ∷ actions) p stays good =
      run-IsGood joined ws actions (act order a p) (ground arith)
        (act-IsGood joined ws a p (ground arith) good)

  -- A WebSocket that has connected, whatever the publisher did before, is connected after anything that
  -- the loop runs behind that, other connections, broadcasts and their sends in any interleaving, unless
  -- it has left or a send to it has raised.
  pub run-connected :
      (ws : ℕ) (before actions : List Action)
      → any (leaves_it ws) actions ≡ false
      → let p = run order actions (connect ws (run order before empty)) in
        (member ws p.connections || failed ws p.sends) ≡ true
  unfolding connect
  run-connected ws before actions stays =
      let p = run order before empty in
      let (marked, _) = run-IsGood false ws before empty refl (tt, refl) in
      (run-IsGood true ws actions (connect ws p) stays
        (marked, ground (arith, member-add ws ws p.connections))).1
