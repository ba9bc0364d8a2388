-- ===== src/Store/Tokens.antt =====
-- internal/store/device_registry.go: refresh tokens are kept as salted hashes.
pub mod Laws
use timich_agent.Base.{
  ℕ, ◌≡◌, Bool, true, false, not, ◌&&◌, ◌||◌, Option, none, some, List, [], ◌∷◌, ◌++◌, ltb, ◌==◌,
  if◌then◌else◌, Text, text_eq, is_empty, trim_space, Result, ok, err,
}
use timich_agent.Store.Registry.{
  DeviceRecord, StoreError, random_failed, refresh_token_empty, refresh_token_missing,
}

-- `base64.RawStdEncoding.EncodeToString(sha256.Sum256([]byte(text)))` of the standard library.
pub record Digest : Type 0 where
  pub digest : Text → Text

-- The encoding of 32 bytes has 43 characters, so it is never empty.
abbrev pub IsFilled : Digest → Type 0
IsFilled h = (t : Text) → is_empty (h.digest t) ≡ false

-- What the generator of random bytes gives to one call of newDeviceRecord, in the order of the draws.
pub record DeviceDraws : Type 0 where
  pub id : Option Text
  pub token : Option Text
  pub salt : Option Text

module _ ⦃h : Digest⦄ where
  unfoldable pub hash_refresh_token : Text → Text → Text
  hash_refresh_token token salt = h.digest (salt ++ b':' ∷ token)

  -- `salt` is what the generator of random bytes gives, or `none` for its error.
  unfoldable pub set_refresh_token :
      Option Text → DeviceRecord → Text → Result StoreError DeviceRecord
  set_refresh_token salt d token =
      if is_empty (trim_space token) then err refresh_token_empty else elim salt [
        | none ↦ err random_failed
        | some salt ↦ ok (record d {
          current_refresh_token = trim_space token;
          refresh_token_salt = salt;
          current_refresh_token_hash = hash_refresh_token (trim_space token) salt;
        })
      ]

  unfoldable pub matches_refresh_token : DeviceRecord → Text → Bool
  matches_refresh_token d token =
      if is_empty (trim_space token)
        || (is_empty d.current_refresh_token_hash || is_empty d.refresh_token_salt)
      then false
      else text_eq (hash_refresh_token (trim_space token) d.refresh_token_salt)
          d.current_refresh_token_hash

  unfoldable pub matches_previous_refresh_token : DeviceRecord → Text → ℕ → Bool
  matches_previous_refresh_token d token now =
      if is_empty (trim_space token)
        || (is_empty d.previous_refresh_token_hash
            || (is_empty d.previous_refresh_token_salt
                || (d.previous_refresh_token_valid_until == 0
                    || not (ltb now d.previous_refresh_token_valid_until))))
      then false
      else text_eq (hash_refresh_token (trim_space token) d.previous_refresh_token_salt)
          d.previous_refresh_token_hash

  unfoldable pub new_device_record : DeviceDraws → Text → ℕ → ℕ → Result StoreError DeviceRecord
  unfolding set_refresh_token
  new_device_record draws name now refresh_token_expires_at = elim draws.id [
    | none ↦ err random_failed
    | some id ↦ elim draws.token [
      | none ↦ err random_failed
      | some token ↦
          set_refresh_token draws.salt
            (record {
              device_id = id;
              device_name = trim_space name;
              review_only = false;
              created_at = now;
              last_refreshed_at = now;
              current_refresh_token = [];
              current_refresh_token_hash = [];
              refresh_token_salt = [];
              refresh_token_expires_at = refresh_token_expires_at;
              previous_refresh_token_hash = [];
              previous_refresh_token_salt = [];
              previous_refresh_token_valid_until = 0;
            })
            token
    ]
  ]

  -- DeviceRecord.UnmarshalJSON; the payload's plain token is what older agents stored.
  unfoldable pub unmarshal_device : Option Text → DeviceRecord → Result StoreError DeviceRecord
  unfolding set_refresh_token
  unmarshal_device salt payload =
      let d = record payload {
        current_refresh_token = [];
        current_refresh_token_hash = trim_space payload.current_refresh_token_hash;
        refresh_token_salt = trim_space payload.refresh_token_salt;
        previous_refresh_token_hash = trim_space payload.previous_refresh_token_hash;
        previous_refresh_token_salt = trim_space payload.previous_refresh_token_salt;
      } in
      if not (is_empty d.current_refresh_token_hash) && not (is_empty d.refresh_token_salt)
      then ok d
      else if not (is_empty (trim_space payload.current_refresh_token))
      then set_refresh_token salt d payload.current_refresh_token
      else err refresh_token_missing
