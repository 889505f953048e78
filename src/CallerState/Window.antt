-- ===== src/CallerState/Window.antt =====
-- The bounded deque of a caller answers as the full history would
-- (src/anti_fraud_as/caller_state.py, `CallRateWindow`).
use mathlib.Core.Bool.{false≢true}
use mathlib.Core.List.{append_assoc}
use rdparty_as_poc.Prelude.{
  ℕ, ◌+◌, ◌≤◌, ◌<◌, min, ◌≡◌, refl, sym, ap, ◌∙◌, subst, ◌↔◌, ◌⊎◌, inl, inr, true, not, List, [],
  ◌∷◌, ◌++◌, arith, ltb, ltb→lt, ltb→le, Bool-cases, length, length-append, filter, All, All-map,
}
use rdparty_as_poc.Prelude.Float.{Floats, IsOrdered}
use rdparty_as_poc.CallerState.History.{
  IsAscending, IsAscending-right, All-right, IsAscending-below, in_order-IsAscending, All-append,
  filter-none, filter_keep, length-filter_append, in_order, length-filter-in_order, recorded,
  IsMonotonic, calls_inside,
}
use rdparty_as_poc.CallerState.{drop_old, drop_excess, next_events}

module _ (f : Floats) (ord : IsOrdered f) (window : f.Float) (max_calls : ℕ) where
  abbrev Dead : f.Float → List f.Float → Type 0
  Dead oldest = All (λ e. f.leb e oldest ≡ true)

  drop_old-split :
      (oldest : f.Float) (es : List f.Float)
      → (gone : List f.Float) × (es ≡ gone ++ drop_old f oldest es) × Dead oldest gone
  unfolding drop_old
  drop_old-split oldest [] = ([], refl, tt)
  drop_old-split oldest (e ∷ es) = elim (Bool-cases (f.leb e oldest)) [
    | inl old ↦
        let (gone, split, dead) = drop_old-split oldest es in
        (e ∷ gone, rw old (ap (λ r. e ∷ r) split), (old, dead))
    | inr recent ↦ ([], rw recent, tt)
  ]

  drop_excess-split :
      (es : List f.Float)
      → (gone : List f.Float) × (es ≡ gone ++ drop_excess f max_calls es)
        × (((gone ≡ []) × (length (drop_excess f max_calls es) ≤ max_calls + 1))
            ⊎ (length (drop_excess f max_calls es) ≡ max_calls + 1))
  unfolding drop_excess
  drop_excess-split [] = ([], refl, inl (refl, omega arith))
  drop_excess-split (e ∷ es) = elim (Bool-cases (ltb (max_calls + 1) (length (e ∷ es)))) [
    | inr fits ↦ ([], rw fits, inl (refl, rw fits (ltb→le _ _ fits)))
    | inl over ↦
        let (gone, split, rest) = drop_excess-split es in
        (
          e ∷ gone,
          rw over (ap (λ r. e ∷ r) split),
          inr (
              rw over (elim rest [
                | inr full ↦ full
                | inl (none_gone, bound) ↦
                    let same : es ≡ drop_excess f max_calls es =
                      subst (λ g. es ≡ g ++ drop_excess f max_calls es) none_gone split in
                    omega (arith, ap length same, ltb→lt _ _ over)
              ])),
        )
  ]

  Dead-trans : (a b : f.Float) (es : List f.Float) → f.leb a b ≡ true → Dead a es → Dead b es
  Dead-trans a b es h = All-map _ _ (λ e k. ord.leb_trans e a b k h) es

  -- What is left of an ascending deque is inside the window.
  drop_old-alive :
      (oldest : f.Float) (es : List f.Float)
      → IsAscending f es
      → All (λ e. not (f.leb e oldest) ≡ true) (drop_old f oldest es)
  unfolding drop_old
  drop_old-alive oldest [] h = tt
  drop_old-alive oldest (e ∷ es) h = elim (Bool-cases (f.leb e oldest)) [
    | inl old ↦ rw old (drop_old-alive oldest es h.1)
    | inr recent ↦ rw recent (
      rw recent,
      All-map _ _
          (λ x later. elim (Bool-cases (f.leb x oldest)) [
            | inl gone ↦ absurd (false≢true (sym recent ∙ ord.leb_trans e x oldest later gone))
            | inr kept ↦ rw kept
          ])
          es h.0,
    )
  ]

  -- The deque is the end of the history, and what is missing in front of it has left the window, or
  -- the deque is full.
  abbrev Tracks : f.Float → List f.Float → List f.Float → Type 0
  Tracks at hs es =
      (gone : List f.Float) × (hs ≡ gone ++ es)
      × (Dead (f.sub at window) gone ⊎ (length es ≡ max_calls + 1))

  -- What one call drops in front of the deque, where the deque was full before.
  full-Dead :
      (oldest t : f.Float) (old es gone rest : List f.Float)
      → length es ≡ max_calls + 1
      → es ++ t ∷ [] ≡ gone ++ rest
      → length rest ≤ max_calls + 1
      → IsAscending f (old ++ (es ++ t ∷ []))
      → Dead oldest gone
      → Dead oldest old
  full-Dead oldest t old es [] rest full split bound up dead =
      absurd (omega (arith, ap length split, length-append es (t ∷ [])))
  full-Dead oldest t old es (g ∷ gone) rest full split bound up dead =
      Dead-trans g oldest old dead.0
        (IsAscending-below f old g (gone ++ rest) (subst (λ r. IsAscending f (old ++ r)) split up))

  -- One call: from a deque whose missing part is dead or that is full, to one of the same kind whose
  -- every instant is inside the window.
  next_events-Tracks :
      (t : f.Float) (hs old es : List f.Float)
      → hs ≡ old ++ es
      → (Dead (f.sub t window) old ⊎ (length es ≡ max_calls + 1))
      → IsAscending f (hs ++ t ∷ [])
      → Tracks t (hs ++ t ∷ []) (next_events f t window max_calls es)
        × All (λ e. not (f.leb e (f.sub t window)) ≡ true) (next_events f t window max_calls es)
        × (length (next_events f t window max_calls es) ≤ max_calls + 1)
  unfolding next_events
  next_events-Tracks t hs old es whole missing up =
      let oldest = f.sub t window in
      let (gone, split, dead) = drop_old-split oldest (es ++ t ∷ []) in
      let rest = drop_old f oldest (es ++ t ∷ []) in
      let (cut, split', bound) = drop_excess-split rest in
      let kept = drop_excess f max_calls rest in
      let whole' : hs ++ t ∷ [] ≡ old ++ (es ++ t ∷ []) =
        ap (λ r. r ++ t ∷ []) whole ∙ append_assoc old es (t ∷ []) in
      let up' = subst (IsAscending f) whole' up in
      let inside : All (λ e. not (f.leb e oldest) ≡ true) rest =
        drop_old-alive oldest (es ++ t ∷ []) (IsAscending-right f old (es ++ t ∷ []) up') in
      let split_all : hs ++ t ∷ [] ≡ (old ++ gone ++ cut) ++ kept =
        whole'
        ∙ ap (λ r. old ++ r) (split ∙ ap (λ r. gone ++ r) split')
        ∙ sym (append_assoc (old ++ gone) cut kept ∙ append_assoc old gone (cut ++ kept)) in
      (
        (
          old ++ gone ++ cut,
          split_all,
          elim bound [
            | inr full ↦ inr full
            | inl (none_cut, short) ↦
                let same : rest ≡ kept = split' ∙ ap (λ c. c ++ kept) none_cut in
                let old_dead : Dead oldest old = elim missing [
                  | inl d ↦ d
                  | inr full ↦
                      full-Dead oldest t old es gone rest full split (omega (arith, ap length same))
                        up' dead
                ] in
                inl (
                  subst (λ c. Dead oldest (old ++ gone ++ c)) (sym none_cut)
                    (All-append _ (old ++ gone) [] (All-append _ old gone old_dead dead) tt))
          ],
        ),
        All-right f _ cut kept (subst (All _) split' inside),
        elim bound [ inl (_, short) ↦ short | inr full ↦ omega arith ],
      )

  recorded-Tracks :
      (t : f.Float) (hs : List f.Float)
      → IsMonotonic f (t ∷ hs)
      → Tracks t (in_order (t ∷ hs)) (recorded f window max_calls (t ∷ hs))
        × All (λ e. not (f.leb e (f.sub t window)) ≡ true) (recorded f window max_calls (t ∷ hs))
        × (length (recorded f window max_calls (t ∷ hs)) ≤ max_calls + 1)
  recorded-Tracks t [] up =
      next_events-Tracks t [] [] [] refl (inl tt) (in_order-IsAscending f (t ∷ []) up)
  recorded-Tracks t (u ∷ hs) up =
      let (tracks, _, _) = recorded-Tracks u hs up.1 in
      let (gone, whole, missing) = tracks in
      next_events-Tracks t (in_order (u ∷ hs)) gone (recorded f window max_calls (u ∷ hs)) whole
        (elim missing [
          | inl dead ↦ inl (Dead-trans _ _ gone (ord.sub_mono u t window up.0.0) dead)
          | inr full ↦ inr full
        ])
        (in_order-IsAscending f (t ∷ u ∷ hs) up)

  -- The number that the bounded deque reports for a call is the number of all calls of the caller's
  -- whole history inside the window, up to the bound `max_calls + 1`, if the clock never runs back.
  pub length-recorded :
      (t : f.Float) (hs : List f.Float)
      → IsMonotonic f (t ∷ hs)
      → length (recorded f window max_calls (t ∷ hs))
        ≡ min (max_calls + 1) (calls_inside f window t (t ∷ hs))
  length-recorded t hs up =
      let hit = λ (e : f.Float). not (f.leb e (f.sub t window)) in
      let es = recorded f window max_calls (t ∷ hs) in
      let (tracks, inside, bound) = recorded-Tracks t hs up in
      let (gone, whole, missing) = tracks in
      let counted : calls_inside f window t (t ∷ hs) ≡ length (filter hit gone) + length es =
        sym (length-filter-in_order hit (t ∷ hs))
        ∙ ap (λ r. length (filter hit r)) whole
        ∙ length-filter_append hit gone es
        ∙ ap (λ r. length (filter hit gone) + length r) (filter_keep hit es inside) in
      elim missing [
        | inl dead ↦
            let none_counted : length (filter hit gone) ≡ 0 =
              ap length (filter-none hit gone (All-map _ _ (λ e k. rw k) gone dead)) in
            omega (arith, counted, bound)
        | inr full ↦ omega (arith, counted)
      ]

  -- The verdict needs no more than the deque: it passes the threshold exactly when the whole history
  -- does.
  pub recorded_exceeds_iff :
      (t : f.Float) (hs : List f.Float)
      → IsMonotonic f (t ∷ hs)
      → (max_calls < length (recorded f window max_calls (t ∷ hs)))
        ↔ (max_calls < calls_inside f window t (t ∷ hs))
  recorded_exceeds_iff t hs up =
      let e = length-recorded t hs up in (λ h. omega (arith, e), λ h. omega (arith, e))
