-- ===== src/Service/Sessions.antt =====
-- internal/pairing/service.go: pairing sessions, devices and their tokens.
use timich_agent.Base.{
  ℕ, ◌+◌, Option, none, some, [], if◌then◌else◌, find_index, Text, text_eq, is_empty, trim_space,
  ok, err,
}
use timich_agent.AtomicFile.{Syscalls}
use timich_agent.Store.Registry.{pairing_session_not_found, DeviceRecord}
use timich_agent.Store.Cleanup.{cleanup_expired}
use timich_agent.Store.Tokens.{Digest, DeviceDraws}
use timich_agent.Store.Pairing.{create_pairing_session, redeem_pairing_session}
use timich_agent.Store.Rotation.{rotate_refresh_token}
use timich_agent.Store.Devices.{
  create_hosted_device, create_hosted_review_device, has_device, revoke_device,
}
use timich_agent.Security.{
  access_token_invalid, AccessTokenClaims, Crypto, audience_timich_agent, verify_access_token,
}
use timich_agent.Service.{
  SessionBundle, PairingSessionResponse, Service, store_error, token_error, Answer, on_ok,
  default_pairing_ttl, default_refresh_token_ttl, build_session_bundle, next_refresh_token,
}

module _ ⦃h : Digest⦄ ⦃k : Crypto⦄ where
  -- `return s.buildSessionBundle(…)`
  unfoldable pub bundled : Service → Option Text → DeviceRecord → Text → ℕ → Answer SessionBundle
  bundled s token_id device base_url now = (s, build_session_bundle s token_id device base_url now)

  unfoldable pub create_pairing :
      Syscalls → Option Text → Service → ℕ → Answer PairingSessionResponse
  create_pairing os code s now =
      on_ok s (create_pairing_session os code s.registry now (now + default_pairing_ttl))
        λ s' session.
          (s', ok (record { pairing_code = session.code; expires_at = session.expires_at }))

  unfoldable pub active_pairing_session : Service → Text → ℕ → Answer PairingSessionResponse
  active_pairing_session s code now =
      if is_empty (trim_space code)
      then (s, err (store_error pairing_session_not_found))
      else let c = cleanup_expired now s.registry in
        (
          record s { registry = c },
          elim (find_index (λ session. text_eq session.code (trim_space code)) c.pairing_sessions) [
            | none ↦ err (store_error pairing_session_not_found)
            | some (index, session) ↦
                ok (record { pairing_code = session.code; expires_at = session.expires_at })
          ],
        )

  unfoldable pub redeem_pairing :
      Syscalls → DeviceDraws → Option Text → Service → Text → Text → Text → ℕ → Answer SessionBundle
  unfolding bundled
  redeem_pairing os draws token_id s code name base_url now =
      on_ok s
        (redeem_pairing_session os draws s.registry code (trim_space name) now
          (now + default_refresh_token_ttl))
        λ s' device. bundled s' token_id device base_url now

  unfoldable pub create_hosted_session :
      Syscalls → DeviceDraws → Option Text → Service → Text → Text → ℕ → Answer SessionBundle
  unfolding bundled
  create_hosted_session os draws token_id s name base_url now =
      on_ok s
        (create_hosted_device os draws s.registry (trim_space name) now
          (now + default_refresh_token_ttl))
        λ s' device. bundled s' token_id device base_url now

  -- A device whose bundle cannot be built is revoked, at the time `later` and with the system calls
  -- `os'`; the revocation's error is dropped.
  unfoldable pub create_hosted_review_session :
      Syscalls
      → Syscalls
      → DeviceDraws
      → Option Text
      → Service
      → Text
      → Text
      → ℕ
      → ℕ
      → Answer SessionBundle × Text
  create_hosted_review_session os os' draws token_id s name base_url now later =
      let (r, created) =
        create_hosted_review_device os draws s.registry (trim_space name) now
          (now + default_refresh_token_ttl) in
      let s' = record s { registry = r } in
      elim created [
        | err e ↦ ((s', err (store_error e)), [])
        | ok (device, evicted_id) ↦ elim (build_session_bundle s' token_id device base_url now) [
          | ok bundle ↦ ((s', ok bundle), evicted_id)
          | err e ↦ (
            (record s { registry = (revoke_device os' r device.device_id later).0 }, err e),
            evicted_id,
          )
        ]
      ]

  unfoldable pub refresh_session :
      Syscalls → Option Text → Option Text → Service → Text → Text → ℕ → Answer SessionBundle
  unfolding bundled
  refresh_session os salt token_id s token base_url now =
      let normalized = trim_space token in
      on_ok s
        (rotate_refresh_token os salt s.registry normalized (next_refresh_token s normalized) now
          (now + default_refresh_token_ttl))
        λ s' device. bundled s' token_id device base_url now

  -- The device is looked up at the time `later`, after the token is verified at `now`.
  unfoldable pub authenticate_access_token : Service → Text → ℕ → ℕ → Answer AccessTokenClaims
  authenticate_access_token s token now later =
      elim (verify_access_token s.tokens (trim_space token) audience_timich_agent now) [
        | err e ↦ (s, err (token_error e))
        | ok claims ↦
            let (r, known) = has_device s.registry claims.app_device_id later in
            if known
            then (record s { registry = r }, ok claims)
            else (record s { registry = r }, err (token_error access_token_invalid))
      ]
