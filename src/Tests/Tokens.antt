-- ===== src/Tests/Tokens.antt =====
-- Runs of the token manager and of the pairing service, with formats that are easy to read back.
use timich_agent.Base.{
  ℕ, zero, suc, ◌+◌, ◌-◌, ◌≡◌, refl, ap, true, false, some, [], ◌∷◌, ◌++◌, length, find_index,
  is_some, All, Text, codes, text_eq, trim_space, split_at, leb, ◌==◌, if◌then◌else◌, ok, err,
  arith,
}
use timich_agent.Store.Cleanup.{cleanup_device, cleanup_expired}
use timich_agent.Store.Devices.{has_device, has_id}
use timich_agent.Security.{
  Bytes, TokenManager, AccessTokenClaims, Crypto, access_token_expired, audience_timich_agent,
  scope_media, unix, sign, seal, claims_for, mint_access_token, check_claims, verify_parts,
  verify_split, verify_access_token,
}
use timich_agent.Security.RoundTrip.{IsCodec, verify-mint_access_token}
use timich_agent.Security.Forgery.{IsGenuine, verify_access_token-IsGenuine}
use timich_agent.Service.{Service}
use timich_agent.Service.Sessions.{authenticate_access_token}
use timich_agent.Service.Refresh.{authenticate_access_token-paired}
use timich_agent.Tests.Data.{plain, paired}

abbrev shift : Bytes → Text
shift [] = []
shift (b ∷ bytes) = (b + 100) ∷ shift bytes

abbrev unshift : Text → Bytes
unshift [] = []
unshift (c ∷ s) = (c - 100) ∷ unshift s

abbrev field : Text → Bytes → Bytes
field t rest = length t ∷ t ++ rest

abbrev take_split : ℕ → Bytes → Text × Bytes
take_split zero s = ([], s)
take_split (suc n) [] = ([], [])
take_split (suc n) (c ∷ s) = let r = take_split n s in (c ∷ r.0, r.1)

abbrev read_field : Bytes → Text × Bytes
read_field [] = ([], [])
read_field (n ∷ s) = take_split n s

abbrev read_numbers : Bytes → ℕ × ℕ
read_numbers (m ∷ (n ∷ s)) = (m, n)
read_numbers _ = (0, 0)

abbrev write_claims : AccessTokenClaims → Bytes
write_claims c = field c.agent_id (
    field c.app_device_id (
      field c.audience
        (field c.scope (field c.token_id (field c.key_id (c.issued_at ∷ c.expires_at ∷ []))))))

abbrev read_claims : Bytes → AccessTokenClaims
read_claims bytes =
    let a = read_field bytes in
    let b = read_field a.1 in
    let c = read_field b.1 in
    let d = read_field c.1 in
    let e = read_field d.1 in
    let f = read_field e.1 in
    let g = read_numbers f.1 in
    record {
      agent_id = a.0;
      app_device_id = b.0;
      audience = c.0;
      scope = d.0;
      token_id = e.0;
      key_id = f.0;
      issued_at = g.0;
      expires_at = g.1;
    }

instance abbrev readable : Crypto
readable = record {
  encode_url = shift;
  decode_url = λ s. some (unshift s);
  decode_std = λ s. some s;
  marshal_claims = write_claims;
  unmarshal_claims = λ bytes. some (read_claims bytes);
  hmac_sha256 = λ key bytes. key ++ bytes;
  sha256 = λ bytes. bytes;
}

unshift-shift : (bytes : Bytes) → unshift (shift bytes) ≡ bytes
unshift-shift [] = refl
unshift-shift (b ∷ bytes) = ground (arith, unshift-shift bytes)

shift_no_dot : (bytes : Bytes) → All (λ c. (c == b'.') ≡ false) (shift bytes)
shift_no_dot [] = tt
shift_no_dot (b ∷ bytes) = (ground arith, shift_no_dot bytes)

read_field-field : (t rest : Bytes) → read_field (field t rest) ≡ (t, rest)
read_field-field [] rest = refl
read_field-field (c ∷ t) rest = ground (arith, read_field-field t rest)

readable-IsCodec : IsCodec readable
readable-IsCodec = record {
  decode-encode = λ bytes. ap some (unshift-shift bytes);
  unmarshal-marshal = λ c. grind (arith, read_field-field);
  no_dot = shift_no_dot;
}

abbrev manager : TokenManager
manager = record { agent_id = codes "a"; key = 7 ∷ []; key_id = codes "k"; ttl = 5_000_000_000 }

-- 2001, in nanoseconds since Go's zero time.
abbrev then_time : ℕ
then_time = 63_135_596_800_000_000_000

abbrev claims : AccessTokenClaims
claims = record {
  agent_id = codes "a";
  app_device_id = codes "d1";
  audience = audience_timich_agent;
  scope = scope_media;
  token_id = codes "n";
  key_id = codes "k";
  issued_at = 1_000_000_000;
  expires_at = 1_000_000_005;
}

abbrev token : Text
token = shift (write_claims claims) ++ b'.' ∷ shift (7 ∷ write_claims claims)

mint_runs :
    mint_access_token manager (some (codes "n")) (codes " d1") audience_timich_agent then_time
    ≡ ok (token, claims)
unfolding mint_access_token claims_for seal sign trim_space
mint_runs = refl

verify-mint_access_token_example :
    verify_access_token manager token audience_timich_agent then_time ≡ (
      if leb (unix (then_time + manager.ttl)) (unix then_time)
      then err access_token_expired
      else ok claims)
verify-mint_access_token_example =
    verify-mint_access_token manager (codes "n") (codes " d1") audience_timich_agent token claims
      then_time then_time readable-IsCodec refl mint_runs

verify_runs : verify_access_token manager token audience_timich_agent then_time ≡ ok claims
unfolding verify_access_token verify_split verify_parts check_claims sign split_at text_eq
    trim_space
verify_runs = refl

verify_access_token-IsGenuine_example :
    IsGenuine manager token audience_timich_agent then_time claims
verify_access_token-IsGenuine_example =
    verify_access_token-IsGenuine manager token audience_timich_agent then_time claims verify_runs

abbrev service : Service
service = record {
  agent_id = codes "a";
  agent_name = codes "home";
  registry = paired;
  tokens = manager;
  refresh_rotation_key = 8 ∷ [];
}

authenticate_runs : (authenticate_access_token service token then_time then_time).1 ≡ ok claims
unfolding authenticate_access_token has_device cleanup_expired cleanup_device verify_access_token
    verify_split verify_parts check_claims sign split_at text_eq trim_space
authenticate_runs = refl

authenticate_access_token-paired_example :
    IsGenuine manager (trim_space token) audience_timich_agent then_time claims
    × (is_some (find_index (has_id (codes "d1")) (cleanup_expired then_time paired).devices) ≡ true)
authenticate_access_token-paired_example =
    authenticate_access_token-paired service token then_time then_time claims authenticate_runs
