-- ===== src/LoadControl/Loops.antt =====
-- The tick loops of the pool (tools/call_load_generator.py, `CallPool._tick_loop`): those that go on, and
-- what cancelling, ending and adding a task does to them.
use rdparty_as_poc.Prelude.{
  ℕ, ◌≡◌, refl, Bool, true, false, not, ◌==◌, is_empty, Option, none, some, List, [], ◌∷◌, ◌++◌,
  filter, arith, if◌then◌else◌,
}
use rdparty_as_poc.LoadControl.{TickTask, cancel, end_task}

-- The numbers of the loops that go on: of the tasks that are not cancelled.
abbrev pub going : List TickTask → List ℕ
going [] = []
going (k ∷ ks) = if k.cancelled then going ks else k.number ∷ going ks

pub going-append :
    (n : ℕ) (ks : List TickTask)
    → going (ks ++ (record { number = n; cancelled = false } ∷ [])) ≡ going ks ++ (n ∷ [])
going-append n [] = refl
going-append n (k ∷ ks) = ground (arith, going-append n ks)

pub going-cancel :
    (t : ℕ) (ks : List TickTask) → going (cancel t ks) ≡ filter (λ n. not (n == t)) (going ks)
unfolding cancel
going-cancel t [] = refl
going-cancel t (k ∷ ks) = ground (arith, going-cancel t ks)

pub going-end_task : (t : ℕ) (ks : List TickTask) → going (end_task t true ks) ≡ going ks
unfolding end_task
going-end_task t [] = refl
going-end_task t (k ∷ ks) = ground (arith, going-end_task t ks)

pub going-none : (t : ℕ) (ks : List TickTask) → going ks ≡ [] → going (end_task t false ks) ≡ []
unfolding end_task
going-none t [] h = refl
going-none t (k ∷ ks) h = ground (arith, going-none t ks)

-- What holds of both branches of a test holds of the test.
pub if-inv {ℓ κ} :
    {A : Type ℓ} (P : A → Type κ) (b : Bool) (x y : A)
    → (b ≡ true → P x)
    → (b ≡ false → P y)
    → P (if b then x else y)
if-inv P true x y yes_case no_case = yes_case refl
if-inv P false x y yes_case no_case = no_case refl

-- The loops where every start finds that no stop waits: the one that the pool keeps while it runs, and
-- none while it does not.
abbrev pub OneLoop : Bool → Option ℕ → List TickTask → List ℕ → Type 0
OneLoop true none ks ns = ⊥
OneLoop true (some t) ks ns = (going ks ≡ t ∷ []) × (ns ≡ [])
OneLoop false o ks ns = going ks ≡ []

pub is_empty-eq : (ns : List ℕ) → is_empty ns ≡ true → ns ≡ []
is_empty-eq [] h = refl
is_empty-eq (n ∷ ns) h = cc
