-- ===== src/Screening/Laws.antt =====
-- When a call is rejected, and what the decision says of it (src/anti_fraud_as/screening.py).
use rdparty_as_poc.Prelude.{◌<◌, ◌≤◌, ◌≡◌, ◌≢◌, ◌↔◌, ◌⊎◌, true, none, arith}
use rdparty_as_poc.Prelude.Float.{Floats}
use rdparty_as_poc.Screening.{
  ScreeningVerdict, ScreeningSource, ScreeningSignals, ScreeningPolicy, screen,
}

module _ (f : Floats) (s : ScreeningSignals f) (p : ScreeningPolicy f) where
  -- A call is rejected exactly when its caller is known, is on no allow list, and is blocked, or has
  -- made too many calls, or has too low a score.
  pub screen_reject_iff : ((screen f s p).verdict ≡ ScreeningVerdict.reject) ↔ (
      (s.identity_present ≡ true)
      × (s.allowlisted_by ≡ none)
      × ((s.blocklisted_by ≢ none)
          ⊎ ((p.reject_above_calls < s.calls_in_window)
              ⊎ (f.ltb s.effective_reputation p.reject_below_reputation ≡ true))))
  unfolding screen
  screen_reject_iff = ground arith

  -- The first signal that fires decides, in the order allow list, block list, rate window,
  -- reputation: each source is named exactly when its signal fires and none before it does.
  pub screen_source_iff :
      (((screen f s p).source ≡ ScreeningSource.allow_list)
        ↔ ((s.identity_present ≡ true) × (s.allowlisted_by ≢ none)))
      × (((screen f s p).source ≡ ScreeningSource.block_list)
          ↔ ((s.identity_present ≡ true) × (s.allowlisted_by ≡ none) × (s.blocklisted_by ≢ none)))
      × (((screen f s p).source ≡ ScreeningSource.rate_window) ↔ (
          (s.identity_present ≡ true)
          × (s.allowlisted_by ≡ none)
          × (s.blocklisted_by ≡ none)
          × (p.reject_above_calls < s.calls_in_window)))
      × (((screen f s p).source ≡ ScreeningSource.reputation) ↔ (
          (s.identity_present ≡ true)
          × (s.allowlisted_by ≡ none)
          × (s.blocklisted_by ≡ none)
          × (s.calls_in_window ≤ p.reject_above_calls)
          × (f.ltb s.effective_reputation p.reject_below_reputation ≡ true)))
  unfolding screen
  screen_source_iff = (ground arith, ground arith, ground arith, ground arith)
