-- ===== src/Store/Tokens/Laws.antt =====
-- What a device record accepts as its token.
use timich_agent.Base.{
  ◌≡◌, true, false, Option, some, none, ◌∷◌, ◌++◌, arith, Text, text_eq, text_eq_self, is_empty,
  trim_space, ok,
}
use timich_agent.Store.Registry.{DeviceRecord}
use timich_agent.Store.Tokens.{
  Digest, IsFilled, hash_refresh_token, set_refresh_token, matches_refresh_token,
}

module _ ⦃h : Digest⦄ where
  pub set_refresh_token-ok :
      (salt : Option Text) (d f : DeviceRecord) (token : Text)
      → set_refresh_token salt d token ≡ ok f
      → (is_empty (trim_space token) ≡ false)
        × ((x : Text) × (salt ≡ some x)
            × (f ≡ record d {
              current_refresh_token = trim_space token;
              refresh_token_salt = x;
              current_refresh_token_hash = hash_refresh_token (trim_space token) x;
            }))
  unfolding set_refresh_token
  set_refresh_token-ok none d f token e = ground arith
  set_refresh_token-ok (some x) d f token e = (ground arith, (x, ground arith, ground arith))

  pub hash-IsFilled :
      IsFilled h → (token salt : Text) → is_empty (hash_refresh_token token salt) ≡ false
  unfolding hash_refresh_token
  hash-IsFilled f token salt = f (salt ++ b':' ∷ token)

  -- A token that is set is accepted, with spaces around it or without, if the salt is not empty.
  pub matches-set_refresh_token :
      (x : Text) (d f : DeviceRecord) (token : Text)
      → IsFilled h
      → is_empty x ≡ false
      → set_refresh_token (some x) d token ≡ ok f
      → matches_refresh_token f token ≡ true
  unfolding set_refresh_token matches_refresh_token
  matches-set_refresh_token x d f token filled salted e = ground (
    arith,
    hash-IsFilled filled (trim_space token) x,
    text_eq_self (hash_refresh_token (trim_space token) x),
  )

  pub matches_refresh_token-parts :
      (d : DeviceRecord) (token : Text)
      → matches_refresh_token d token ≡ true
      → (is_empty (trim_space token) ≡ false)
        × (is_empty d.current_refresh_token_hash ≡ false)
        × (is_empty d.refresh_token_salt ≡ false)
        × (text_eq
              (hash_refresh_token (trim_space token) d.refresh_token_salt)
              d.current_refresh_token_hash
            ≡ true)
  unfolding matches_refresh_token
  matches_refresh_token-parts d token e = ground arith
