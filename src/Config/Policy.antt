-- ===== src/Config/Policy.antt =====
-- The derived answers about sequence numbers of fix_monitor/src/config.cpp.
use fix_mon.Prelude.{false, ◌≡◌, ◌↔◌, ◌⊎◌, arith}
use fix_mon.Config.Session.{
  TriState, SessionConfig, seq_reset_policy, is_yes, persistent, reset_each_logon, unknown_policy,
}

-- A session is called persistent exactly if the engine said No to all three resets, reset at each
-- logon exactly if it said Yes to that one, and unknown exactly if it said Yes to none and left
-- one of them open: the answer never rests on a setting that was not seen.
pub seq_reset_policy_lem :
    (c : SessionConfig)
    → ((seq_reset_policy c ≡ persistent) ↔ (
        (c.reset_on_logon ≡ TriState.no_)
        × (c.reset_on_logout ≡ TriState.no_)
        × (c.reset_on_disconnect ≡ TriState.no_)))
      × ((seq_reset_policy c ≡ reset_each_logon) ↔ (c.reset_on_logon ≡ TriState.yes_))
      × ((seq_reset_policy c ≡ unknown_policy) ↔ (
          (is_yes c.reset_on_logon ≡ false)
          × (is_yes c.reset_on_logout ≡ false)
          × (is_yes c.reset_on_disconnect ≡ false)
          × ((c.reset_on_logon ≡ TriState.unknown)
              ⊎ ((c.reset_on_logout ≡ TriState.unknown)
                  ⊎ (c.reset_on_disconnect ≡ TriState.unknown)))))
unfolding seq_reset_policy
seq_reset_policy_lem c = (
  (λ h. (ground arith, ground arith, ground arith), λ h. ground arith),
  (λ h. ground arith, λ h. ground arith),
  (λ h. (ground arith, ground arith, ground arith, ground arith), λ h. ground arith),
)
