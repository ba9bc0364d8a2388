-- ===== src/Security/Forgery.antt =====
-- Which tokens are accepted.
use timich_agent.Base.{
  ℕ, ◌<◌, ◌≡◌, refl, true, false, some, List, [], ◌∷◌, Text, text_eq, text_eq_sound, is_empty,
  trim_space, split_at, Option-cases, inl, inr, ok, arith,
}
use timich_agent.Security.{
  Bytes, TokenManager, AccessTokenClaims, Crypto, unix, scope_media, sign, check_claims,
  verify_parts, verify_split, verify_access_token,
}

module _ ⦃k : Crypto⦄ (m : TokenManager) (token audience : Text) (now : ℕ) where
  -- A token of two parts, the second of which is the signature of the first under the agent's key, and
  -- claims of this agent for this audience that are not expired.
  pub record IsGenuine (claims : AccessTokenClaims) : Type 0 where
    pub first : Text
    pub second : Text
    pub payload : Bytes
    pub two_parts : split_at b'.' token ≡ (first, second ∷ [])
    pub carries : k.decode_url first ≡ some payload
    pub signed : k.decode_url second ≡ some (sign m payload)
    pub parsed : k.unmarshal_claims payload ≡ some claims
    pub of_agent : claims.agent_id ≡ m.agent_id
    pub for_audience : claims.audience ≡ trim_space audience
    pub for_media : claims.scope ≡ scope_media
    pub under_key : claims.key_id ≡ m.key_id
    pub for_device : is_empty claims.app_device_id ≡ false
    pub unexpired : unix now < claims.expires_at

  check_claims-ok :
      (claims result : AccessTokenClaims)
      → check_claims m (trim_space audience) now claims ≡ ok result
      → (claims ≡ result)
        × (text_eq claims.agent_id m.agent_id ≡ true)
        × (text_eq claims.audience (trim_space audience) ≡ true)
        × (text_eq claims.scope scope_media ≡ true)
        × (text_eq claims.key_id m.key_id ≡ true)
        × (is_empty claims.app_device_id ≡ false)
        × (unix now < claims.expires_at)
  unfolding check_claims
  check_claims-ok claims result e = ground arith

  verify_parts-ok :
      (first second : Text) (result : AccessTokenClaims)
      → verify_parts m first second (trim_space audience) now ≡ ok result
      → (payload : Bytes) × (k.decode_url first ≡ some payload)
        × (k.decode_url second ≡ some (sign m payload))
        × (k.unmarshal_claims payload ≡ some result)
        × (check_claims m (trim_space audience) now result ≡ ok result)
  unfolding verify_parts
  verify_parts-ok first second result e = elim (Option-cases (k.decode_url first)) [
    | inl none_first ↦ absurd (ground arith)
    | inr (payload, f) ↦ elim (Option-cases (k.decode_url second)) [
      | inl none_second ↦ absurd (ground arith)
      | inr (signature, g) ↦ elim (Option-cases (k.unmarshal_claims payload)) [
        | inl not_parsed ↦ absurd (ground arith)
        | inr (claims, u) ↦ (
          payload,
          f,
          ground (arith, f, g, u, text_eq_sound signature (sign m payload)),
          ground (arith, f, g, u, check_claims-ok claims result),
          ground (arith, f, g, u, check_claims-ok claims result),
        )
      ]
    ]
  ]

  -- A token is accepted only if it has two parts, the second of which is the signature of the first under
  -- the agent's key, and carries claims of this agent, under this key, for this audience and for media,
  -- with a device, that are not expired.
  pub verify_access_token-IsGenuine :
      (claims : AccessTokenClaims)
      → verify_access_token m token audience now ≡ ok claims
      → IsGenuine claims
  unfolding verify_access_token
  verify_access_token-IsGenuine claims e = go (split_at b'.' token) refl
    where
      go : (parts : Text × List Text) → split_at b'.' token ≡ parts → IsGenuine claims
      go (first, []) p = absurd (unfold verify_split in ground arith)
      go (first, second ∷ []) p =
          let v : verify_parts m first second (trim_space audience) now ≡ ok claims =
            unfold verify_split in ground arith in
          let (payload, f, g, u, c) = verify_parts-ok first second claims v in
          let (_, a, b, d, i, n, x) = check_claims-ok claims claims c in
          record {
            first = first;
            second = second;
            payload = payload;
            two_parts = p;
            carries = f;
            signed = g;
            parsed = u;
            of_agent = text_eq_sound _ _ a;
            for_audience = text_eq_sound _ _ b;
            for_media = text_eq_sound _ _ d;
            under_key = text_eq_sound _ _ i;
            for_device = n;
            unexpired = x;
          }
      go (first, second ∷ (third ∷ rest)) p = absurd (unfold verify_split in ground arith)
