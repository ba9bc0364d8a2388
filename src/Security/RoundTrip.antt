-- ===== src/Security/RoundTrip.antt =====
-- A token that the agent mints is one that it accepts, until it expires.
use timich_agent.Base.{
  ℕ, ◌+◌, ◌≡◌, refl, false, some, [], ◌∷◌, ◌++◌, leb, ◌==◌, if◌then◌else◌, All, Text, codes,
  text_eq_self, inl, inr, is_empty, trim_space, split_at, ok, err, arith, Bool-cases,
}
use timich_agent.Security.{
  Bytes, TokenManager, AccessTokenClaims, Crypto, access_token_expired, unix, claims_for, seal,
  sign, mint_access_token, check_claims, verify_parts, verify_split, verify_access_token,
}

-- What the formats promise: decoding undoes encoding, and no encoded text holds a dot.
pub record IsCodec (k : Crypto) : Type 0 where
  pub decode-encode : (bytes : Bytes) → k.decode_url (k.encode_url bytes) ≡ some bytes
  pub unmarshal-marshal :
      (claims : AccessTokenClaims) → k.unmarshal_claims (k.marshal_claims claims) ≡ some claims
  pub no_dot : (bytes : Bytes) → All (λ c. (c == b'.') ≡ false) (k.encode_url bytes)

split_at_of_none : (x : ℕ) (s : Text) → All (λ c. (c == x) ≡ false) s → split_at x s ≡ (s, [])
unfolding split_at
split_at_of_none x [] h = refl
split_at_of_none x (c ∷ s) h = rw (h.0) (rw (split_at_of_none x s h.1))

split_at-append :
    (x : ℕ) (s t : Text)
    → All (λ c. (c == x) ≡ false) s
    → All (λ c. (c == x) ≡ false) t
    → split_at x (s ++ x ∷ t) ≡ (s, t ∷ [])
unfolding split_at
split_at-append x [] t h g = ground (arith, split_at_of_none x t g)
split_at-append x (c ∷ s) t h g = ground (arith, split_at-append x s t h.1 g)

module _ ⦃k : Crypto⦄ where
  verify_seal :
      (m : TokenManager) (claims : AccessTokenClaims) (audience : Text) (now : ℕ)
      → IsCodec k
      → is_empty (trim_space audience) ≡ false
      → verify_access_token m (seal m claims) audience now
        ≡ check_claims m (trim_space audience) now claims
  unfolding verify_access_token seal verify_split verify_parts
  verify_seal m claims audience now codec a =
      let payload : Bytes = k.marshal_claims claims in
      let signature : Bytes = sign m payload in
      ground (
        arith,
        a,
        split_at-append b'.' (k.encode_url payload) (k.encode_url signature) (codec.no_dot payload)
            (codec.no_dot signature),
        codec.decode-encode payload,
        codec.decode-encode signature,
        codec.unmarshal-marshal claims,
        text_eq_self signature,
      )

  check-claims_for :
      (m : TokenManager) (device_id audience token_id : Text) (now later : ℕ)
      → is_empty (trim_space device_id) ≡ false
      → is_empty token_id ≡ false
      → check_claims m (trim_space audience) later (claims_for m device_id audience token_id now)
        ≡ (if leb (unix (now + m.ttl)) (unix later)
            then err access_token_expired
            else ok (claims_for m device_id audience token_id now))
  unfolding check_claims claims_for
  check-claims_for m device_id audience token_id now later d t = ground (
    arith,
    text_eq_self m.agent_id,
    text_eq_self (trim_space audience),
    text_eq_self (codes "media"),
    text_eq_self m.key_id,
  )

  -- If the formats decode what they encode and the token id is not empty, a token that was minted is
  -- accepted with the claims it was minted with, for the audience it was minted for, until the seconds
  -- of its expiry are reached; from then on it is refused as expired.
  pub verify-mint_access_token :
      (m : TokenManager) (token_id device_id audience token : Text) (claims : AccessTokenClaims)
      (now later : ℕ)
      → IsCodec k
      → is_empty token_id ≡ false
      → mint_access_token m (some token_id) device_id audience now ≡ ok (token, claims)
      → verify_access_token m token audience later
        ≡ (if leb (unix (now + m.ttl)) (unix later) then err access_token_expired else ok claims)
  unfolding mint_access_token
  verify-mint_access_token m token_id device_id audience token claims now later codec t e =
      elim (Bool-cases (is_empty (trim_space device_id))) [
        | inl empty ↦ absurd (ground arith)
        | inr device ↦ elim (Bool-cases (is_empty (trim_space audience))) [
          | inl empty ↦ absurd (ground arith)
          | inr aud ↦ ground (
            arith,
            device,
            aud,
            verify_seal m (claims_for m device_id audience token_id now) audience later codec aud,
            check-claims_for m device_id audience token_id now later device t,
          )
        ]
      ]
