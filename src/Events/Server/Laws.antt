-- ===== src/Events/Server/Laws.antt =====
-- Every event of the number-translation server reaches the fan-out (src/as_app/internal_api.py,
-- `InternalApiServer.start`).
use rdparty_as_poc.Prelude.{
  ℕ, zero, suc, String, ◌≡◌, ◌≢◌, refl, sym, ap, subst, ◌∙◌, Bool, true, false, Option, none, some,
  List, [], ◌∷◌, ◌++◌, map, length, if◌then◌else◌, arith, All,
}
use mathlib.Core.List.{append_assoc, append-nil}
use rdparty_as_poc.Events.Publisher.{Action}
use rdparty_as_poc.Events.Server.{
  Live, LiveAction, make_server, start_translation, hand_over, submit, take_first, begin_first,
  turn, turn_of, publish, live, live_run, handed_over,
}

-- What waits was all given to one loop.
abbrev pub IsFor : ℕ → List (ℕ × String) → Type 0
IsFor loop = All (λ e. e.0 ≡ loop)

abbrev pub messages : List (ℕ × String) → List String
messages = map (λ e. e.1)

pub IsFor-append :
    (loop : ℕ) (message : String) (xs : List (ℕ × String))
    → IsFor loop xs
    → IsFor loop (xs ++ (loop, message) ∷ [])
IsFor-append loop message [] h = (refl, tt)
IsFor-append loop message (x ∷ xs) h = (h.0, IsFor-append loop message xs h.1)

-- The loop takes the first of what waits for it.
take_first-own :
    (loop : ℕ) (message : String) (rest : List (ℕ × String)) (other : ℕ)
    → other ≡ loop
    → take_first loop ((other, message) ∷ rest) ≡ some (message, rest)
unfolding take_first
take_first-own loop message rest other h = ground arith

take_first-nil : (loop : ℕ) → take_first loop [] ≡ none
unfolding take_first
take_first-nil loop = refl

-- Nothing waits for another loop.
pub take_first-other :
    (loop own : ℕ) (xs : List (ℕ × String)) → IsFor own xs → own ≢ loop → take_first loop xs ≡ none
unfolding take_first
take_first-other loop own [] h ne = refl
take_first-other loop own ((other, message) ∷ xs) h ne =
    ground (arith, h.0, take_first-other loop own xs h.1 ne)

messages-append :
    (loop : ℕ) (message : String) (xs : List (ℕ × String))
    → messages (xs ++ (loop, message) ∷ []) ≡ messages xs ++ message ∷ []
messages-append loop message [] = refl
messages-append loop message (x ∷ xs) = ap (x.1 ∷◌) (messages-append loop message xs)

module _ (order : List ℕ → List ℕ) where
  -- The server runs the loop that it stores, and nothing is lost or overtaken on it.
  record IsServed (loop : ℕ) (emitted : List String) (l : Live) : Type 0 where
    stored : l.app_loop ≡ some loop
    runs : l.running_loop ≡ some loop
    own : IsFor loop l.scheduled
    kept : l.begun ++ messages l.scheduled ≡ emitted

  pub turn_lem :
      (loop : ℕ) (l : Live) (found : Option (String × List (ℕ × String)))
      → l.running_loop ≡ some loop
      → take_first loop l.scheduled ≡ found
      → turn order l ≡ begin_first order found l
  unfolding turn
  turn_lem loop l found runs e =
      ap (λ o. turn_of order o l) runs ∙ ap (λ x. begin_first order x l) e

  turn-IsServed :
      (loop : ℕ) (emitted : List String) (l : Live) (waiting : List (ℕ × String))
      → l.scheduled ≡ waiting
      → IsServed loop emitted l
      → IsServed loop emitted (turn order l)
  turn-IsServed loop emitted l [] e served =
      rw (turn_lem loop l none served.runs (ap (take_first loop) e ∙ take_first-nil loop)) served
  turn-IsServed loop emitted l ((other, message) ∷ rest) e served =
      let own : IsFor loop ((other, message) ∷ rest) = subst (IsFor loop) e served.own in
      let taken =
        turn_lem loop l (some (message, rest)) served.runs
          (ap (take_first loop) e ∙ take_first-own loop message rest other own.0) in
      rw taken (record {
        stored = served.stored;
        runs = served.runs;
        own = own.1;
        kept =
            append_assoc l.begun (message ∷ []) (messages rest)
            ∙ ap (λ w. l.begun ++ messages w) (sym e)
            ∙ served.kept;
      })

  pub submit_lem :
      (loop : ℕ) (accepted : Bool) (message : String) (l : Live)
      → l.app_loop ≡ some loop
      → submit accepted message l ≡ hand_over accepted message (some loop) l
  unfolding submit
  submit_lem loop accepted message l stored = ap (λ o. hand_over accepted message o l) stored

  submit-IsServed :
      (loop : ℕ) (emitted : List String) (accepted : Bool) (message : String) (l : Live)
      → IsServed loop emitted l
      → IsServed loop
          (emitted ++ (if accepted then message ∷ [] else []))
          (submit accepted message l)
  submit-IsServed loop emitted true message l served =
      rw (submit_lem loop true message l served.stored) (record {
        stored = served.stored;
        runs = served.runs;
        own = IsFor-append loop message l.scheduled served.own;
        kept =
            ap (l.begun ++◌) (messages-append loop message l.scheduled)
            ∙ sym (append_assoc l.begun (messages l.scheduled) (message ∷ []))
            ∙ ap (◌++ message ∷ []) served.kept;
      })
  submit-IsServed loop emitted false message l served =
      rw (submit_lem loop false message l served.stored, append-nil emitted) served

  publish-IsServed :
      (loop : ℕ) (emitted : List String) (a : Action) (l : Live)
      → IsServed loop emitted l
      → IsServed loop emitted (publish order a l)
  publish-IsServed loop emitted a l served = record {
    stored = served.stored;
    runs = served.runs;
    own = served.own;
    kept = served.kept;
  }

  live_run-IsServed :
      (loop : ℕ) (emitted : List String) (actions : List LiveAction) (l : Live)
      → IsServed loop emitted l
      → IsServed loop (emitted ++ handed_over actions) (live_run order actions l)
  unfolding live
  live_run-IsServed loop emitted [] l served = rw (append-nil emitted) served
  live_run-IsServed loop emitted (LiveAction.emits true message ∷ actions) l served =
      rw (← append_assoc emitted (message ∷ []) (handed_over actions)) (
        live_run-IsServed loop (emitted ++ message ∷ []) actions (submit true message l)
          (submit-IsServed loop emitted true message l served))
  live_run-IsServed loop emitted (LiveAction.emits false message ∷ actions) l served =
      live_run-IsServed loop emitted actions _ (
        subst (λ es. IsServed loop es (submit false message l)) (append-nil emitted)
          (submit-IsServed loop emitted false message l served))
  live_run-IsServed loop emitted (LiveAction.turns ∷ actions) l served =
      live_run-IsServed loop emitted actions _
        (turn-IsServed loop emitted l l.scheduled refl served)
  live_run-IsServed loop emitted (LiveAction.connects ws ∷ actions) l served =
      live_run-IsServed loop emitted actions _ (publish-IsServed loop emitted _ l served)
  live_run-IsServed loop emitted (LiveAction.leaves ws ∷ actions) l served =
      live_run-IsServed loop emitted actions _ (publish-IsServed loop emitted _ l served)
  live_run-IsServed loop emitted (LiveAction.resumes n raised ∷ actions) l served =
      live_run-IsServed loop emitted actions _ (publish-IsServed loop emitted _ l served)

  -- The thread's next broadcasts.
  abbrev pub turns_of : ℕ → Live → Live
  turns_of zero l = l
  turns_of (suc n) l = turns_of n (turn order l)

  turn_rest :
      (loop : ℕ) (l : Live) (entry : ℕ × String) (rest : List (ℕ × String))
      → l.running_loop ≡ some loop
      → IsFor loop l.scheduled
      → l.scheduled ≡ entry ∷ rest
      → (turn order l).scheduled ≡ rest
  turn_rest loop l (other, message) rest runs own e =
      let own' : IsFor loop ((other, message) ∷ rest) = subst (IsFor loop) e own in
      let found = ap (take_first loop) e ∙ take_first-own loop message rest other own'.0 in
      rw (turn_lem loop l (some (message, rest)) runs found) refl

  turns_of-begun :
      (loop : ℕ) (emitted : List String) (waiting : List (ℕ × String)) (l : Live)
      → l.scheduled ≡ waiting
      → IsServed loop emitted l
      → (turns_of (length waiting) l).begun ≡ emitted
  turns_of-begun loop emitted [] l e served =
      sym (append-nil l.begun) ∙ ap (λ w. l.begun ++ messages w) (sym e) ∙ served.kept
  turns_of-begun loop emitted (entry ∷ rest) l e served =
      turns_of-begun loop emitted rest (turn order l)
        (turn_rest loop l entry rest served.runs served.own e)
        (turn-IsServed loop emitted l (entry ∷ rest) e served)

  started-IsServed : (loop : ℕ) → IsServed loop [] (start_translation loop make_server)
  unfolding start_translation
  started-IsServed loop = record { stored = refl; runs = refl; own = tt; kept = refl }

  -- After the number-translation server has started, whatever its thread runs, whoever connects and
  -- leaves and however sends end, the messages that were handed over are those whose broadcast has
  -- begun and those that wait, each once and in the order of the hand-over; and as many further turns of
  -- the thread as there are messages waiting begin them all.
  pub start_translation-broadcasts :
      (loop : ℕ) (actions : List LiveAction)
      → let l = live_run order actions (start_translation loop make_server) in
        (l.begun ++ messages l.scheduled ≡ handed_over actions)
        × ((turns_of (length l.scheduled) l).begun ≡ handed_over actions)
  start_translation-broadcasts loop actions =
      let l = live_run order actions (start_translation loop make_server) in
      let served =
        live_run-IsServed loop [] actions (start_translation loop make_server)
          (started-IsServed loop) in
      (served.kept, turns_of-begun loop (handed_over actions) l.scheduled l refl served)
