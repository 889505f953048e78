-- ===== src/FraudStack/Laws.antt =====
-- The anti-fraud process decides under the policy of the file it last loaded
-- (src/anti_fraud_as/main.py).
use rdparty_as_poc.Prelude.{
  ℕ, Option, ap, ◌∙◌, String, ◌≡◌, refl, sym, subst, inl, inr, ok, ok-injective, Result-cases,
  Bool-cases,
}
use rdparty_as_poc.Prelude.Float.{Floats}
use rdparty_as_poc.Errors.{Exception}
use rdparty_as_poc.Reload.{Disk, activate, maybe_reload, make_store, same_fingerprint}
use rdparty_as_poc.Reload.Laws.{make_store-loads}
use rdparty_as_poc.Routing.Loading.{Parser}
use rdparty_as_poc.CallerState.{StateStore, CallerStateStore, reconfigure}
use rdparty_as_poc.ScreeningData.Document.{
  ScreeningDocument, policy_of, load_screening_data, make_screening_store, maybe_reload_screening,
}
use rdparty_as_poc.FraudCall
use rdparty_as_poc.FraudCall.Signals.{Platform}
use rdparty_as_poc.FraudStack.Calls.{decide_call-policy}
use rdparty_as_poc.FraudStack.{FraudAsStack, make_fraud_stack, poll_screening_reload}

module _ (f : Floats) (s : StateStore f) (p : Parser (ScreeningDocument f)) where
  -- The policy of the state is that of the data, and the data are what some disk held.
  pub record IsConfigured (k : FraudAsStack f s) : Type 0 where
    pub policy : k.caller_state.policy ≡ policy_of f k.screening_data.current.document
    pub loaded :
        (disk : Disk) × (load_screening_data f p disk k.screening_data.path
          ≡ ok k.screening_data.current)

  make_fraud_stack-IsConfigured :
      (empty : s.State) (a b : Disk) (path : String) {k : FraudAsStack f s}
      → make_fraud_stack f s p empty a b path ≡ ok k
      → IsConfigured k
  unfolding make_fraud_stack make_screening_store
  make_fraud_stack-IsConfigured empty a b path {k} made =
      elim (Result-cases (make_store (load_screening_data f p) a b path)) [
        | inl (t, stored) ↦
            let (loads, named) = make_store-loads (load_screening_data f p) a b path stored in
            subst IsConfigured (ok-injective (rw stored at made))
              (record { policy = refl; loaded = (a, rw named loads) })
        | inr (e, fails) ↦ cc (rw fails at made)
      ]

  poll-IsConfigured :
      (a b : Disk) (k : FraudAsStack f s)
      → IsConfigured k
      → IsConfigured (poll_screening_reload f s p a b k).1
  unfolding poll_screening_reload maybe_reload_screening maybe_reload activate reconfigure
  poll-IsConfigured a b k h =
      let t = k.screening_data in
      elim (Bool-cases (same_fingerprint (a.stat t.path) t.fingerprint)) [
        | inl same ↦ rw same (record { policy = h.policy; loaded = h.loaded })
        | inr differ ↦ elim (Result-cases (load_screening_data f p b t.path)) [
          | inl (c, loads) ↦ rw (differ, loads) (record { policy = refl; loaded = (b, loads) })
          | inr (Exception.as_error e, fails) ↦
              rw (differ, fails) (record { policy = h.policy; loaded = h.loaded })
          | inr (Exception.other exc, fails) ↦
              rw (differ, fails) (record { policy = h.policy; loaded = h.loaded })
        ]
      ]

module _ (f : Floats) (s : StateStore f) (p : Parser (ScreeningDocument f))
    (platform : Platform f) where
  -- What may happen in the process: the timer fires while the file is or is not edited, or a call is
  -- decided over the lists and the caller state in force, whatever else the process has recorded.
  pub data Step (k l : FraudAsStack f s) : Type 0 where
    polls : (a b : Disk) → l ≡ (poll_screening_reload f s p a b k).1 → Step k l
    decides :
        (next_hop : Option (String × ℕ)) (now later : f.Float) (request : Option platform.Request)
        (call_id : String) (event : FraudCall.TryEvent f platform)
        (process : FraudCall.Process f platform s)
        → process.callers ≡ k.caller_state
        → l ≡ record k {
          caller_state =
              (FraudCall.decide_call f platform s k.screening_data.current next_hop now later
                request call_id event process).1.callers;
        }
        → Step k l

  pub data Reach (k : FraudAsStack f s) : FraudAsStack f s → Type 0 where
    here : Reach k k
    next : {l m : FraudAsStack f s} → Reach k l → Step l m → Reach k m

  Step-IsConfigured :
      (k l : FraudAsStack f s) → Step k l → IsConfigured f s p k → IsConfigured f s p l
  Step-IsConfigured k l (polls a b e) h =
      subst (IsConfigured f s p) (sym e) (poll-IsConfigured f s p a b k h)
  Step-IsConfigured k l (decides next_hop now later request call_id event process held e) h =
      let kept =
        decide_call-policy f platform s k.screening_data.current next_hop now later request call_id
          event process in
      subst (IsConfigured f s p) (sym e) (record {
        policy = kept ∙ ap (λ (c : CallerStateStore f s). c.policy) held ∙ h.policy;
        loaded = h.loaded;
      })

  Reach-IsConfigured :
      {k l : FraudAsStack f s} → IsConfigured f s p k → Reach k l → IsConfigured f s p l
  Reach-IsConfigured h here = h
  Reach-IsConfigured h (next r step) = Step-IsConfigured _ _ step (Reach-IsConfigured h r)

  -- From a start that succeeded, after any polls, whatever is edited before or during each of them and
  -- whether they fail or raise, and any calls decided in between, whatever their verdict and whether they raise,
  -- the policy that the calls are counted and scored under is that of the screening data in force,
  -- and those are what the loader made of the file as it was on some disk.
  pub Reach-policy :
      (empty : s.State) (a b : Disk) (path : String) (k l : FraudAsStack f s)
      → make_fraud_stack f s p empty a b path ≡ ok k
      → Reach k l
      → (l.caller_state.policy ≡ policy_of f l.screening_data.current.document)
        × ((disk : Disk) × (load_screening_data f p disk l.screening_data.path
              ≡ ok l.screening_data.current))
  Reach-policy empty a b path k l made r =
      let h = Reach-IsConfigured (make_fraud_stack-IsConfigured f s p empty a b path made) r in
      (h.policy, h.loaded)
