-- ===== src/Service/Links.antt =====
-- internal/pairing/service.go: nearby links, which an administrator approves.
use timich_agent.Base.{ℕ, ◌+◌, Option, none, some, List, [], map, Text, trim_space, ok, err}
use timich_agent.AtomicFile.{Syscalls}
use timich_agent.Store.Registry.{NearbyLink}
use timich_agent.Store.Cleanup.{cleanup_expired}
use timich_agent.Store.Tokens.{Digest, DeviceDraws}
use timich_agent.Store.Links.{
  LinkDraws, approved, status, create_nearby_link, approve_nearby_link, deny_nearby_link,
  cancel_nearby_link, poll_nearby_link, redeem_nearby_link,
}
use timich_agent.Security.{Crypto}
use timich_agent.Service.{
  NearbyLinkResponse, NearbyLinkPollResponse, Service, Answer, on_ok, nearby_link_response,
  default_nearby_link_ttl, default_refresh_token_ttl, build_session_bundle,
}

module _ ⦃h : Digest⦄ ⦃k : Crypto⦄ where
  unfoldable pub create_link :
      Syscalls → LinkDraws → Service → Text → Text → ℕ → Answer NearbyLinkResponse
  create_link os draws s name kind now =
      on_ok s
        (create_nearby_link os draws s.registry (trim_space name) (trim_space kind) now
          (now + default_nearby_link_ttl))
        λ s' made. (s', ok (nearby_link_response made.0 made.1))

  unfoldable pub links : Service → ℕ → Service × List NearbyLinkResponse
  links s now =
      let c = cleanup_expired now s.registry in
      (record s { registry = c }, map (λ link. nearby_link_response link []) c.nearby_links)

  unfoldable pub approve_link : Syscalls → Service → Text → ℕ → Answer NearbyLinkResponse
  approve_link os s code now =
      on_ok s (approve_nearby_link os s.registry code now)
        λ s' link. (s', ok (nearby_link_response link []))

  unfoldable pub deny_link : Syscalls → Service → Text → ℕ → Answer NearbyLinkResponse
  deny_link os s id now =
      on_ok s (deny_nearby_link os s.registry id now)
        λ s' link. (s', ok (nearby_link_response link []))

  unfoldable pub cancel_link : Syscalls → Service → Text → Text → ℕ → Answer NearbyLinkResponse
  cancel_link os s id token now =
      on_ok s (cancel_nearby_link os s.registry id token now)
        λ s' link. (s', ok (nearby_link_response link []))

  -- The end of PollNearbyLink, for a link that is approved.
  unfoldable pub redeem_polled :
      Syscalls
      → DeviceDraws
      → Option Text
      → Service
      → NearbyLink
      → Text
      → Text
      → Text
      → ℕ
      → Answer NearbyLinkPollResponse
  redeem_polled os draws token_id s polled id token base_url now =
      on_ok s
        (redeem_nearby_link os draws s.registry id token now (now + default_refresh_token_ttl))
        λ s' made. elim (build_session_bundle s' token_id made.0 base_url now) [
          | err e ↦ (s', err e)
          | ok bundle ↦ (
            s',
            ok (record {
              link_id = polled.link_id;
              link_status = status made.1;
              expires_at = made.1.expires_at;
              session = some bundle;
            }),
          )
        ]

  -- The system calls of the poll and of the redemption that may follow.
  unfoldable pub poll_link :
      Syscalls
      → Syscalls
      → DeviceDraws
      → Option Text
      → Service
      → Text
      → Text
      → Text
      → ℕ
      → Answer NearbyLinkPollResponse
  poll_link os os' draws token_id s id token base_url now =
      on_ok s (poll_nearby_link os s.registry id token now) λ s' link. elim (status link) [
        | approved ↦ redeem_polled os' draws token_id s' link id token base_url now
        | other ↦ (
          s',
          ok (record {
            link_id = link.link_id;
            link_status = other;
            expires_at = link.expires_at;
            session = none;
          }),
        )
      ]
