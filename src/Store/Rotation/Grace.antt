-- ===== src/Store/Rotation/Grace.antt =====
-- How long a token that was rotated away is still accepted.
use timich_agent.Base.{ℕ, ◌+◌, ◌≡◌, true, ltb, min, arith, Text}
use timich_agent.Store.Registry.{DeviceRecord, previous_refresh_token_replay_grace}
use timich_agent.Store.Cleanup.{cleanup_device}
use timich_agent.Store.Tokens.{Digest, matches_refresh_token, matches_previous_refresh_token}
use timich_agent.Store.Tokens.Laws.{matches_refresh_token-parts}
use timich_agent.Store.Rotation.{retire_token}

-- The device that rotation stores: the token retired, another hash and salt set, the times renewed.
abbrev pub rotated : DeviceRecord → Text → Text → Text → ℕ → ℕ → DeviceRecord
rotated d token hash salt now expires = record (retire_token d now expires) {
  current_refresh_token = token;
  current_refresh_token_hash = hash;
  refresh_token_salt = salt;
  last_refreshed_at = now;
  refresh_token_expires_at = expires;
}

module _ ⦃h : Digest⦄ where
  -- After the cleanup at any later call, the token that was current before a rotation is accepted as the
  -- previous one exactly before the end of its grace: two minutes after the rotation, or the new expiry
  -- if that is earlier.
  pub previous_token_grace :
      (d : DeviceRecord) (presented token hash salt : Text) (now expires later : ℕ)
      → matches_refresh_token d presented ≡ true
      → matches_previous_refresh_token
          (cleanup_device later (rotated d token hash salt now expires))
          presented
          later
        ≡ ltb later (min (now + previous_refresh_token_replay_grace) expires)
  unfolding cleanup_device matches_previous_refresh_token retire_token
  previous_token_grace d presented token hash salt now expires later e =
      ground (arith, matches_refresh_token-parts d presented e)
