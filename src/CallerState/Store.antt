-- ===== src/CallerState/Store.antt =====
-- The process-level store (src/anti_fraud_as/caller_state.py): it never raises, its two families of
-- records stay apart, and so do the callers.
use mathlib.Core.Bool.{false≢true}
use text.Mathlib.TextLemmas.{append_cancel_left, cons-append}
use rdparty_as_poc.Prelude.{
  ℕ, suc, ◌-◌, max, code, String, ◌<>◌, ◌≡◌, refl, sym, ap, ◌∙◌, ◌≢◌, inl, inr, Option, none, some,
  List, arith, str_eq, eq_iff, Bool-cases, ok,
}
use rdparty_as_poc.Prelude.Float.{Floats}
use rdparty_as_poc.CallerState.{
  CallerSignals, Entry, StateStore, IsLawful, decay, score_of, window_key, reputation_key,
  record_call, effective_score, penalise_entry, CallerStateStore, observe, penalise,
}

first_code : String → ℕ
first_code String.[] = 0
first_code (String.◌∷◌ c s) = code c

pub keys_apart : (a b : String) → window_key a ≢ reputation_key b
unfolding first_code
keys_apart a b e =
    let same : first_code ("window:" <> a) ≡ first_code ("reputation:" <> b) = ap first_code e in
    let w : first_code ("window:" <> a) ≡ 119 = ap first_code (cons-append "w" "indow:" a) in
    let r : first_code ("reputation:" <> b) ≡ 114 =
      ap first_code (cons-append "r" "eputation:" b) in
    absurd (omega (arith, same, w, r))

pub max_one : (n : ℕ) → (k : ℕ) × (max 1 n ≡ suc k)
max_one n = (max 1 n - 1, omega arith)

module _ (f : Floats) (s : StateStore f) (law : IsLawful f s) where
  -- What each family of keys holds.
  abbrev IsEvents : Option (Entry f) → Type 0
  IsEvents none = Unit
  IsEvents (some (Entry.events _)) = Unit
  IsEvents (some (Entry.scored _ _)) = ⊥

  abbrev IsScore : Option (Entry f) → Type 0
  IsScore none = Unit
  IsScore (some (Entry.events _)) = ⊥
  IsScore (some (Entry.scored _ _)) = Unit

  -- Records of the window are deques and records of the ledger are scores.
  abbrev pub IsTyped : s.State → Type 0
  IsTyped t =
      (caller : String)
      → IsEvents (s.read t (window_key caller)) × IsScore (s.read t (reputation_key caller))

  -- A write into the window's family, and the trim behind it, keep the types.
  trim-IsTyped : (t : s.State) (p : String) (n : ℕ) → IsTyped t → IsTyped (s.trim t p n)
  trim-IsTyped t p n typed caller = (
    elim (law.read-trim t p n (window_key caller)) [
      | inl gone ↦ rw gone tt
      | inr kept ↦ rw kept (typed caller).0
    ],
    elim (law.read-trim t p n (reputation_key caller)) [
      | inl gone ↦ rw gone tt
      | inr kept ↦ rw kept (typed caller).1
    ],
  )

  write_events-IsTyped :
      (t : s.State) (c : String) (es : List f.Float)
      → IsTyped t
      → IsTyped (s.write t (window_key c) (Entry.events es))
  write_events-IsTyped t c es typed caller = (
    elim (Bool-cases (str_eq caller c)) [
      | inl same ↦
          let e : caller ≡ c = (eq_iff caller c).0 same in
          rw (e, law.read-write_self t (window_key c) (Entry.events es)) tt
      | inr other ↦
          rw
            (law.read-write_ne t (window_key c) (window_key caller) (Entry.events es) (λ e.
              false≢true
                (sym other ∙ (eq_iff caller c).1 (append_cancel_left "window:" caller c e))))
            (typed caller).0
    ],
    rw
        (law.read-write_ne t (window_key c) (reputation_key caller) (Entry.events es)
          (λ e. keys_apart c caller (sym e)))
        (typed caller).1,
  )

  write_score-IsTyped :
      (t : s.State) (c : String) (score at : f.Float)
      → IsTyped t
      → IsTyped (s.write t (reputation_key c) (Entry.scored score at))
  write_score-IsTyped t c score at typed caller = (
    rw
        (law.read-write_ne t (reputation_key c) (window_key caller) (Entry.scored score at)
          (keys_apart caller c))
        (typed caller).0,
    elim (Bool-cases (str_eq caller c)) [
      | inl same ↦
          let e : caller ≡ c = (eq_iff caller c).0 same in
          rw (e, law.read-write_self t (reputation_key c) (Entry.scored score at)) tt
      | inr other ↦
          rw
            (law.read-write_ne t (reputation_key c) (reputation_key caller) (Entry.scored score at)
              (λ e.
                false≢true
                  (sym other ∙ (eq_iff caller c).1 (append_cancel_left "reputation:" caller c e))))
            (typed caller).1
    ],
  )

  score_of-ok :
      (now d h : f.Float) (o : Option (Entry f))
      → IsScore o
      → (score : f.Float) × (score_of f now d h o ≡ ok score)
  score_of-ok now d h none typed = (d, refl)
  score_of-ok now d h (some (Entry.events es)) typed = absurd typed
  score_of-ok now d h (some (Entry.scored x u)) typed = (decay f x u now d h, refl)

  effective_score-ok :
      (t : s.State) (caller : String) (now d h : f.Float)
      → IsTyped t
      → (score : f.Float) × (effective_score f s t caller now d h ≡ ok score)
  unfolding effective_score
  effective_score-ok t caller now d h typed =
      score_of-ok now d h (s.read t (reputation_key caller)) (typed caller).1

  record_call-IsTyped :
      (t : s.State) (caller : String) (at w : f.Float) (m n : ℕ)
      → IsTyped t
      → IsTyped (record_call f s t caller at w m n).1
  unfolding record_call
  record_call-IsTyped t caller at w m n typed =
      trim-IsTyped _ "window:" (max 1 n) (write_events-IsTyped t caller _ typed)

  -- An observation never raises, and keeps the types of the records.
  pub observe-ok :
      (now : f.Float) (caller : String) (c : CallerStateStore f s)
      → IsTyped c.state
      → ((signals : CallerSignals f) × ((observe f s now caller c).0 ≡ ok signals))
        × IsTyped (observe f s now caller c).1.state
  unfolding observe
  observe-ok now caller c typed =
      let p = c.policy in
      let (calls, t) =
        record_call f s c.state caller now p.window_seconds p.max_calls p.max_tracked_callers in
      let typed' : IsTyped t =
        record_call-IsTyped c.state caller now p.window_seconds p.max_calls p.max_tracked_callers
          typed in
      let (score, e) = effective_score-ok t caller now p.default_score p.half_life_seconds typed' in
      let signals : CallerSignals f = record {
        calling_number = caller;
        effective_reputation = score;
        calls_in_window = calls;
      } in
      ((signals, rw e), typed')

  -- A penalty never raises: it lowers the caller's decayed score by the policy's penalty and stores
  -- it with the instant, and keeps the types of the records.
  pub penalise-ok :
      (now : f.Float) (caller : String) (c : CallerStateStore f s)
      → IsTyped c.state
      → (score : f.Float) × (effective_score f s c.state caller now c.policy.default_score
            c.policy.half_life_seconds
          ≡ ok score)
        × ((penalise f s now caller c).0 ≡ ok (f.sub score c.policy.reject_penalty))
        × (s.read (penalise f s now caller c).1.state (reputation_key caller)
            ≡ some (Entry.scored (f.sub score c.policy.reject_penalty) now))
        × IsTyped (penalise f s now caller c).1.state
  unfolding penalise penalise_entry
  penalise-ok now caller c typed =
      let p = c.policy in
      let (score, e) =
        effective_score-ok c.state caller now p.default_score p.half_life_seconds typed in
      let (k, m) = max_one p.max_tracked_callers in
      let lowered = f.sub score p.reject_penalty in
      (
        score,
        e,
        rw e,
        rw (e, m) (law.trim-write c.state "reputation:" caller k (Entry.scored lowered now)),
        rw e (
            trim-IsTyped _ "reputation:" (max 1 p.max_tracked_callers)
              (write_score-IsTyped c.state caller lowered now typed)),
      )
