-- ===== src/Service/Refresh.antt =====
-- Refreshing a session, and the access tokens of devices.
use timich_agent.Base.{
  ℕ, ◌≡◌, ap, ◌∙◌, true, find_index, is_some, Text, trim_space, Result-cases, inl, inr, ok, arith,
}
use timich_agent.Store.Cleanup.{cleanup_expired}
use timich_agent.Store.Tokens.{Digest}
use timich_agent.Store.Devices.{has_device, has_id}
use timich_agent.Security.{AccessTokenClaims, Crypto, audience_timich_agent, verify_access_token}
use timich_agent.Security.Forgery.{IsGenuine, verify_access_token-IsGenuine}
use timich_agent.Service.{Service}
use timich_agent.Service.Sessions.{authenticate_access_token}

module _ ⦃h : Digest⦄ ⦃k : Crypto⦄ where
  -- An access token that authenticates is, once trimmed, genuine for the agent's audience at the time of
  -- the verification, and its device is in the registry.
  pub authenticate_access_token-paired :
      (s : Service) (token : Text) (now later : ℕ) (claims : AccessTokenClaims)
      → (authenticate_access_token s token now later).1 ≡ ok claims
      → IsGenuine s.tokens (trim_space token) audience_timich_agent now claims
        × (is_some
              (find_index (has_id claims.app_device_id) (cleanup_expired later s.registry).devices)
            ≡ true)
  unfolding authenticate_access_token has_device
  authenticate_access_token-paired s token now later claims =
      elim (Result-cases
        (verify_access_token s.tokens (trim_space token) audience_timich_agent now)) [
          | inl (found, e) ↦
              rw (e, authenticate_access_token)
                (λ q.
                  let same : found ≡ claims = ground arith in
                  (
                    verify_access_token-IsGenuine s.tokens (trim_space token) audience_timich_agent
                        now claims (e ∙ ap ok same),
                    ground arith,
                  ))
          | inr (x, e) ↦ rw (e, authenticate_access_token) (λ q. cc)
        ]
