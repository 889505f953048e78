-- ===== src/Reload/Laws.antt =====
-- Reload is fail-safe and catches up (src/as_app/routing/rules.py and
-- src/anti_fraud_as/screening_data.py): for any loader, any sequence of polls and any edits between
-- the two touches of one poll.
use rdparty_as_poc.Prelude.{
  String, ◌≡◌, refl, ◌≢◌, true, false, none, some, List, [], ◌∷◌, arith, ◌⊎◌, inl, inr, All, sym,
  ap, subst, ◌∙◌, ok-injective, Bool-cases, Result-cases, Result, ok, err,
}
use rdparty_as_poc.Errors.{Exception}
use rdparty_as_poc.Reload.{
  Disk, Fingerprint, same_fingerprint, Store, make_store, activate, maybe_reload,
}

same_fingerprint_refl : (f : Fingerprint) → same_fingerprint f f ≡ true
same_fingerprint_refl none = refl
same_fingerprint_refl (some p) = ground arith

same_fingerprint-eq : (f g : Fingerprint) → same_fingerprint f g ≡ true → f ≡ g
same_fingerprint-eq f g h = ground arith

same_fingerprint_ne : (f g : Fingerprint) → f ≢ g → same_fingerprint f g ≡ false
same_fingerprint_ne f g ne = elim (Bool-cases (same_fingerprint f g)) [
  | inl same ↦ absurd (ne (same_fingerprint-eq f g same))
  | inr differ ↦ differ
]

module _ {T : Type 0} (load : Disk → String → Result Exception T) where
  -- A poll that raises leaves the store as it was: the document, and the fingerprint, so that the
  -- next poll tries again.
  pub maybe_reload-err :
      (at_stat at_load : Disk) (s : Store T) {e : Exception}
      → (maybe_reload load at_stat at_load s).0 ≡ err e
      → (maybe_reload load at_stat at_load s).1 ≡ s
  unfolding maybe_reload activate
  maybe_reload-err at_stat at_load s h = ground arith

  -- A sequence of polls, each with the disk at its two touches.
  pub polls : List (Disk × Disk) → Store T → Store T
  polls [] s = s
  polls ((a, b) ∷ rest) s = polls rest (maybe_reload load a b s).1

  activate-inv :
      (P : T → Type 0) (s : Store T) (f : Fingerprint) (r : Result Exception T)
      → ((c : T) → r ≡ ok c → P c)
      → P s.current
      → P (activate load s f r).1.current
  unfolding activate
  activate-inv P s f (ok c) loaded p = loaded c refl
  activate-inv P s f (err e) loaded p = p

  -- A poll sees no change and does nothing, or it loads the file.
  maybe_reload-cases :
      (a b : Disk) (s : Store T)
      → (maybe_reload load a b s ≡ (ok false, s))
        ⊎ (maybe_reload load a b s ≡ activate load s (a.stat s.path) (load b s.path))
  unfolding maybe_reload
  maybe_reload-cases a b s = elim (Bool-cases (same_fingerprint (a.stat s.path) s.fingerprint)) [
    | inl same ↦ inl (rw same)
    | inr differ ↦ inr (rw differ)
  ]

  maybe_reload-inv :
      (P : T → Type 0)
      → ((disk : Disk) (path : String) (c : T) → load disk path ≡ ok c → P c)
      → (a b : Disk) (s : Store T) → P s.current
      → P (maybe_reload load a b s).1.current
  maybe_reload-inv P loaded a b s p = elim (maybe_reload-cases a b s) [
    | inl e ↦ rw e p
    | inr e ↦ rw e (activate-inv P s (a.stat s.path) (load b s.path) (loaded b s.path) p)
  ]

  -- What every loaded value satisfies holds of the current one after any polls.
  pub polls-inv :
      (P : T → Type 0)
      → ((disk : Disk) (path : String) (c : T) → load disk path ≡ ok c → P c)
      → (edits : List (Disk × Disk)) (s : Store T) → P s.current
      → P (polls edits s).current
  unfolding polls
  polls-inv P loaded [] s p = p
  polls-inv P loaded ((a, b) ∷ rest) s p =
      polls-inv P loaded rest (maybe_reload load a b s).1 (maybe_reload-inv P loaded a b s p)

  -- A poll of a file that changed and loads makes it the current one.
  maybe_reload-changed :
      (a b : Disk) (s : Store T) {c : T}
      → a.stat s.path ≢ s.fingerprint
      → load b s.path ≡ ok c
      → maybe_reload load a b s ≡ (ok true, record s { current = c; fingerprint = a.stat s.path })
  unfolding maybe_reload activate
  maybe_reload-changed a b s changed loads =
      rw (same_fingerprint_ne (a.stat s.path) s.fingerprint changed, loads)

  -- Polls that all raise leave the store as it was.
  polls-err :
      (edits : List (Disk × Disk)) (s : Store T)
      → All (λ (e : Disk × Disk). (x : Exception) × ((maybe_reload load e.0 e.1 s).0 ≡ err x)) edits
      → polls edits s ≡ s
  unfolding polls
  polls-err [] s h = refl
  polls-err ((a, b) ∷ rest) s ((x, failed), h) =
      ap (polls rest) (maybe_reload-err a b s failed) ∙ polls-err rest s h

  -- However many polls of a broken file have raised, the first poll after it has been mended makes
  -- it the current one.
  pub polls-recover :
      (edits : List (Disk × Disk)) (s : Store T) (mended : Disk) {c : T}
      → All (λ (e : Disk × Disk). (x : Exception) × ((maybe_reload load e.0 e.1 s).0 ≡ err x)) edits
      → mended.stat s.path ≢ s.fingerprint
      → load mended s.path ≡ ok c
      → ((maybe_reload load mended mended (polls edits s)).0 ≡ ok true)
        × ((maybe_reload load mended mended (polls edits s)).1.current ≡ c)
  polls-recover edits s mended failing changed loads =
      rw (polls-err edits s failing, maybe_reload-changed mended mended s changed loads)
        (refl, refl)

  -- After a poll the fingerprint is the one that the poll saw, or the poll raised.
  maybe_reload-fingerprint :
      (a b : Disk) (s : Store T) {c : T}
      → load b s.path ≡ ok c
      → ((maybe_reload load a b s).1.fingerprint ≡ a.stat s.path)
        × ((maybe_reload load a b s).1.path ≡ s.path)
  unfolding maybe_reload activate
  maybe_reload-fingerprint a b s loads =
      elim (Bool-cases (same_fingerprint (a.stat s.path) s.fingerprint)) [
        | inl same ↦ rw same (sym (same_fingerprint-eq (a.stat s.path) s.fingerprint same), refl)
        | inr differ ↦ rw (differ, loads) (refl, refl)
      ]

  -- An edit that falls between the two touches of a poll is not lost: the next poll loads the edited
  -- file, if its fingerprint differs from the one that was seen.
  pub maybe_reload-catches_up :
      (a b : Disk) (s : Store T) {c : T}
      → a.stat s.path ≢ b.stat s.path
      → load b s.path ≡ ok c
      → (maybe_reload load b b (maybe_reload load a b s).1).1.current ≡ c
  maybe_reload-catches_up a b s {c} edited loads =
      let s' = (maybe_reload load a b s).1 in
      let (f, p) = maybe_reload-fingerprint a b s loads in
      let changed : b.stat s'.path ≢ s'.fingerprint = λ e. edited (sym f ∙ sym e ∙ ap b.stat p) in
      ap (λ r. r.1.current) (maybe_reload-changed b b s' changed (ap (load b) p ∙ loads))

  -- An edit that falls between the two touches of the constructor is lost: whatever the edited file
  -- holds, polls of it report no change, and the current value stays that of the file before.
  pub make_store-stale :
      (a b : Disk) (path : String) {s : Store T}
      → make_store load a b path ≡ ok s
      → (load a path ≡ ok s.current) × (maybe_reload load b b s ≡ (ok false, s))
  unfolding make_store maybe_reload
  make_store-stale a b path {s} made = elim (Result-cases (load a path)) [
    | inl (c, loads) ↦
        let e : ◌≡◌ {A = Store T} (record { path = path; current = c; fingerprint = b.stat path })
            s =
          ok-injective (rw (loads, make_store) at made) in
        subst (λ t. (load a path ≡ ok t.current) × (maybe_reload load b b t ≡ (ok false, t))) e
          (loads, rw (same_fingerprint_refl (b.stat path)))
    | inr (x, fails) ↦ cc (rw (fails, make_store) at made)
  ]

  -- A new store holds what its file held, under the file's name.
  pub make_store-loads :
      (a b : Disk) (path : String) {s : Store T}
      → make_store load a b path ≡ ok s
      → (load a path ≡ ok s.current) × (s.path ≡ path)
  unfolding make_store
  make_store-loads a b path {s} made = elim (Result-cases (load a path)) [
    | inl (c, loads) ↦
        let e : ◌≡◌ {A = Store T} (record { path = path; current = c; fingerprint = b.stat path })
            s =
          ok-injective (rw (loads, make_store) at made) in
        subst (λ t. (load a path ≡ ok t.current) × (t.path ≡ path)) e (loads, refl)
    | inr (x, fails) ↦ cc (rw (fails, make_store) at made)
  ]
