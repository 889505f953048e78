-- ===== src/CallerState/History.antt =====
-- Histories of call instants, newest first, and what the deque of a caller is compared with
-- (src/anti_fraud_as/caller_state.py, `CallRateWindow`).
use rdparty_as_poc.Prelude.{
  ℕ, ◌+◌, ◌≡◌, refl, ap, Bool, true, false, not, List, [], ◌∷◌, ◌++◌, arith, length, filter, All,
}
use rdparty_as_poc.Prelude.Float.{Floats}
use rdparty_as_poc.CallerState.{next_events}

module _ {ℓ} {A : Type ℓ} where
  pub All-append : (P : A → Type 0) (xs ys : List A) → All P xs → All P ys → All P (xs ++ ys)
  All-append P [] ys h k = k
  All-append P (x ∷ xs) ys h k = (h.0, All-append P xs ys h.1 k)

  pub filter-none : (p : A → Bool) (xs : List A) → All (λ x. p x ≡ false) xs → filter p xs ≡ []
  filter-none p [] h = refl
  filter-none p (x ∷ xs) h = rw h.0 (filter-none p xs h.1)

  pub filter_keep : (p : A → Bool) (xs : List A) → All (λ x. p x ≡ true) xs → filter p xs ≡ xs
  filter_keep p [] h = refl
  filter_keep p (x ∷ xs) h = rw h.0 (ap (λ r. x ∷ r) (filter_keep p xs h.1))

  pub length-filter_append :
      (p : A → Bool) (xs ys : List A)
      → length (filter p (xs ++ ys)) ≡ length (filter p xs) + length (filter p ys)
  length-filter_append p [] ys = omega arith
  length-filter_append p (x ∷ xs) ys = ground (arith, length-filter_append p xs ys)

  -- A history, newest first, in the order in which it happened.
  abbrev pub in_order : List A → List A
  in_order [] = []
  in_order (t ∷ hs) = in_order hs ++ t ∷ []

  pub length-filter-in_order :
      (p : A → Bool) (xs : List A) → length (filter p (in_order xs)) ≡ length (filter p xs)
  length-filter-in_order p [] = refl
  length-filter-in_order p (x ∷ xs) =
      ground (arith, length-filter_append p (in_order xs) (x ∷ []), length-filter-in_order p xs)

module _ (f : Floats) where
  -- The deque after the calls of a history, newest first.
  abbrev pub recorded : f.Float → ℕ → List f.Float → List f.Float
  recorded window max_calls [] = []
  recorded window max_calls (t ∷ hs) =
      next_events f t window max_calls (recorded window max_calls hs)

  -- The clock does not run backwards.
  abbrev pub IsMonotonic : List f.Float → Type 0
  IsMonotonic [] = Unit
  IsMonotonic (t ∷ hs) = All (λ e. f.leb e t ≡ true) hs × IsMonotonic hs

  -- The calls of a history inside the window that ends at an instant.
  abbrev pub calls_inside : f.Float → f.Float → List f.Float → ℕ
  calls_inside window at hs = length (filter (λ e. not (f.leb e (f.sub at window))) hs)

  abbrev pub IsAscending : List f.Float → Type 0
  IsAscending [] = Unit
  IsAscending (e ∷ es) = All (λ x. f.leb e x ≡ true) es × IsAscending es

  pub IsAscending-right : (xs ys : List f.Float) → IsAscending (xs ++ ys) → IsAscending ys
  IsAscending-right [] ys h = h
  IsAscending-right (x ∷ xs) ys h = IsAscending-right xs ys h.1

  pub All-right : (P : f.Float → Type 0) (xs ys : List f.Float) → All P (xs ++ ys) → All P ys
  All-right P [] ys h = h
  All-right P (x ∷ xs) ys h = All-right P xs ys h.1

  -- What stands in front of an instant is no later.
  pub IsAscending-below :
      (xs : List f.Float) (y : f.Float) (ys : List f.Float)
      → IsAscending (xs ++ y ∷ ys)
      → All (λ x. f.leb x y ≡ true) xs
  IsAscending-below [] y ys h = tt
  IsAscending-below (x ∷ xs) y ys h =
      ((All-right (λ z. f.leb x z ≡ true) xs (y ∷ ys) h.0).0, IsAscending-below xs y ys h.1)

  pub IsAscending-snoc :
      (xs : List f.Float) (t : f.Float)
      → IsAscending xs
      → All (λ x. f.leb x t ≡ true) xs
      → IsAscending (xs ++ t ∷ [])
  IsAscending-snoc [] t h k = (tt, tt)
  IsAscending-snoc (x ∷ xs) t h k =
      (All-append (λ z. f.leb x z ≡ true) xs (t ∷ []) h.0 (k.0, tt), IsAscending-snoc xs t h.1 k.1)

  pub All-in_order : (P : f.Float → Type 0) (hs : List f.Float) → All P hs → All P (in_order hs)
  All-in_order P [] h = tt
  All-in_order P (t ∷ hs) h = All-append P (in_order hs) (t ∷ []) (All-in_order P hs h.1) (h.0, tt)

  pub in_order-IsAscending : (hs : List f.Float) → IsMonotonic hs → IsAscending (in_order hs)
  in_order-IsAscending [] h = tt
  in_order-IsAscending (t ∷ hs) h =
      IsAscending-snoc (in_order hs) t (in_order-IsAscending hs h.1) (All-in_order _ hs h.0)
