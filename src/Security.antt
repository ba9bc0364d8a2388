-- ===== src/Security.antt =====
-- internal/security/token_manager.go: access tokens, signed with HMAC.
pub mod RoundTrip
pub mod Forgery
use timich_agent.Base.{
  ℕ, zero, suc, ◌+◌, ◌-◌, ◌*◌, ◌/◌, Bool, true, false, not, ◌&&◌, ◌||◌, Option, none, some, List,
  [], ◌∷◌, ◌++◌, leb, ltb, ◌==◌, if◌then◌else◌, Text, codes, text_eq, is_empty, trim_space,
  split_at, Result, ok, err,
}

abbrev pub Bytes : Type 0
Bytes = List ℕ

pub data TokenError : Type 0 where
  access_token_invalid access_token_expired : TokenError
  agent_id_empty token_ttl_not_positive signing_key_not_decoded signing_key_empty : TokenError
  device_id_empty token_audience_empty token_id_not_generated : TokenError

-- Times in seconds since 1970; the agent's clock is never before that.
pub record AccessTokenClaims : Type 0 where
  pub agent_id : Text
  pub app_device_id : Text
  pub audience : Text
  pub scope : Text
  pub token_id : Text
  pub key_id : Text
  pub issued_at : ℕ
  pub expires_at : ℕ

pub record TokenManager : Type 0 where
  pub agent_id : Text
  pub key : Bytes
  pub key_id : Text
  pub ttl : ℕ

-- What the standard library computes: base64 (the URL alphabet and the standard one, no padding), the
-- JSON of the claims, HMAC-SHA256, and SHA-256.
pub record Crypto : Type 0 where
  pub encode_url : Bytes → Text
  pub decode_url : Text → Option Bytes
  pub decode_std : Text → Option Bytes
  pub marshal_claims : AccessTokenClaims → Bytes
  pub unmarshal_claims : Bytes → Option AccessTokenClaims
  pub hmac_sha256 : Bytes → Bytes → Bytes
  pub sha256 : Bytes → Bytes

abbrev pub audience_timich_agent : Text
audience_timich_agent = codes "timich-agent"

abbrev pub scope_media : Text
scope_media = codes "media"

-- Unix seconds of a time in nanoseconds since Go's zero time.
abbrev pub unix : ℕ → ℕ
unix t = t / 1_000_000_000 - 62_135_596_800

abbrev take_bytes : ℕ → Bytes → Bytes
take_bytes zero bytes = []
take_bytes (suc n) [] = []
take_bytes (suc n) (b ∷ bytes) = b ∷ take_bytes n bytes

module _ ⦃k : Crypto⦄ where
  unfoldable pub derive_key_id : Bytes → Text
  derive_key_id key = k.encode_url (take_bytes 8 (k.sha256 key))

  unfoldable pub new_token_manager : Text → Text → ℕ → Result TokenError TokenManager
  new_token_manager agent_id encoded_key ttl =
      if is_empty (trim_space agent_id)
      then err agent_id_empty
      else if ttl == 0
      then err token_ttl_not_positive
      else elim (k.decode_std encoded_key) [
        | none ↦ err signing_key_not_decoded
        | some key ↦
            if is_empty key
            then err signing_key_empty
            else ok
                (record { agent_id = agent_id; key = key; key_id = derive_key_id key; ttl = ttl })
      ]

  unfoldable pub sign : TokenManager → Bytes → Bytes
  sign m payload = k.hmac_sha256 m.key payload

  -- The claims of a token for a device, with the id that randomTokenID gives.
  unfoldable pub claims_for : TokenManager → Text → Text → Text → ℕ → AccessTokenClaims
  claims_for m device_id audience token_id now = record {
    agent_id = m.agent_id;
    app_device_id = trim_space device_id;
    audience = trim_space audience;
    scope = scope_media;
    token_id = token_id;
    key_id = m.key_id;
    issued_at = unix now;
    expires_at = unix (now + m.ttl);
  }

  -- The token that carries these claims.
  unfoldable pub seal : TokenManager → AccessTokenClaims → Text
  unfolding sign
  seal m claims =
      let payload = k.marshal_claims claims in
      k.encode_url payload ++ b'.' ∷ k.encode_url (sign m payload)

  -- `random` is the token id, or `none` for an error of the generator.
  unfoldable pub mint_access_token :
      TokenManager → Option Text → Text → Text → ℕ → Result TokenError (Text × AccessTokenClaims)
  unfolding claims_for seal
  mint_access_token m random device_id audience now =
      if is_empty (trim_space device_id)
      then err device_id_empty
      else if is_empty (trim_space audience)
      then err token_audience_empty
      else elim random [
        | none ↦ err token_id_not_generated
        | some token_id ↦
            let claims = claims_for m device_id audience token_id now in ok (seal m claims, claims)
      ]

  -- The checks of VerifyAccessToken once the signature is verified.
  unfoldable pub check_claims :
      TokenManager → Text → ℕ → AccessTokenClaims → Result TokenError AccessTokenClaims
  check_claims m audience now claims =
      if not (text_eq claims.agent_id m.agent_id)
        || (is_empty claims.app_device_id
            || (not (text_eq claims.audience audience)
                || (not (text_eq claims.scope scope_media)
                    || (is_empty claims.token_id || not (text_eq claims.key_id m.key_id)))))
      then err access_token_invalid
      else if leb claims.expires_at (unix now)
      then err access_token_expired
      else ok claims

  -- VerifyAccessToken once the token is split in two.
  unfoldable pub verify_parts :
      TokenManager → Text → Text → Text → ℕ → Result TokenError AccessTokenClaims
  unfolding sign
  verify_parts m first second audience now = elim (k.decode_url first) [
    | none ↦ err access_token_invalid
    | some payload ↦ elim (k.decode_url second) [
      | none ↦ err access_token_invalid
      | some signature ↦
          if not (text_eq signature (sign m payload))
          then err access_token_invalid
          else elim (k.unmarshal_claims payload) [
            | none ↦ err access_token_invalid
            | some claims ↦ check_claims m audience now claims
          ]
    ]
  ]

  -- `len(parts) != 2`
  unfoldable pub verify_split :
      TokenManager → Text × List Text → Text → ℕ → Result TokenError AccessTokenClaims
  verify_split m (first, []) audience now = err access_token_invalid
  verify_split m (first, second ∷ []) audience now = verify_parts m first second audience now
  verify_split m (first, second ∷ (third ∷ rest)) audience now = err access_token_invalid

  unfoldable pub verify_access_token :
      TokenManager → Text → Text → ℕ → Result TokenError AccessTokenClaims
  unfolding verify_split
  verify_access_token m token expected_audience now =
      if is_empty (trim_space expected_audience)
      then err access_token_invalid
      else verify_split m (split_at b'.' token) (trim_space expected_audience) now
