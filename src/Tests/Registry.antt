-- ===== src/Tests/Registry.antt =====
-- Runs of the device registry.
use timich_agent.Base.{
  ℕ, ◌≤◌, ◌≡◌, refl, ◌≢◌, some, none, List, [], ◌∷◌, length, min, Text, codes, text_eq, trim_space,
  ltb, ok, arith, ◌+◌, ◌⊎◌,
}
use timich_agent.Store.Registry.{PairingSession, DeviceRecord, previous_refresh_token_replay_grace}
use timich_agent.Store.File.{persist_locked, commit, write_registry}
use timich_agent.AtomicFile.{write_file}
use timich_agent.Store.Cleanup.{session_is_active, link_is_active, cleanup_device, cleanup_expired}
use timich_agent.Store.Tokens.{
  hash_refresh_token, set_refresh_token, matches_refresh_token, matches_previous_refresh_token,
  new_device_record,
}
use timich_agent.Store.Pairing.{pair_device, redeem_pairing_session}
use timich_agent.Store.Pairing.Guard.{IsGuarded}
use timich_agent.Store.Pairing.Guard.Run.{run-IsGuarded}
use timich_agent.Store.Pairing.OneTime.{Paired, redeem_pairing_session-Paired}
use timich_agent.Store.Pairing.OneTime.Run.{redeem_pairing_session_once}
use timich_agent.Store.Pairing.Lockout.{Attempt, attempts, attempts_lock_out}
use timich_agent.Store.Rotation.{retire_token, rotate_current, rotate_refresh_token}
use timich_agent.Store.Rotation.Grace.{rotated, previous_token_grace}
use timich_agent.Store.Rotation.Success.{IsRotation, IsReplay, rotate_refresh_token-success}
use timich_agent.Store.Rotation.Retry.{rotate_refresh_token_retry}
use timich_agent.Store.History.{Call, looks_up, creates_session, redeems_session, run}
use timich_agent.Store.Limit.Run.{run_within_limit}
use timich_agent.Tests.Data.{
  plain, plain-IsFilled, all_succeed, full_disk, draws, waiting, phone, paired,
}

waiting-IsGuarded : IsGuarded waiting
waiting-IsGuarded = record { at_most_one = omega arith; attempts_left = omega arith }

abbrev history : List Call
history =
    creates_session all_succeed (some (codes "xyz")) 5 50
    ∷ redeems_session all_succeed draws (codes " xyz ") (codes "phone") 6 1000
    ∷ []

run_within_limit_example : length (run waiting history).devices ≤ 2
run_within_limit_example = run_within_limit waiting history (omega arith) (omega arith)

run-IsGuarded_example : IsGuarded (run waiting history)
run-IsGuarded_example = run-IsGuarded waiting history waiting-IsGuarded

redeem_runs :
    (redeem_pairing_session all_succeed draws waiting (codes " abc ") (codes "phone ") 6 1000).1
    ≡ ok phone
unfolding redeem_pairing_session pair_device new_device_record hash_refresh_token persist_locked
    write_registry write_file cleanup_expired session_is_active link_is_active text_eq trim_space
redeem_runs = refl

redeem_pairing_session_once_example :
    (redeem_pairing_session all_succeed draws
      (run
        (redeem_pairing_session all_succeed draws waiting (codes " abc ") (codes "phone ") 6 1000).0
        (looks_up (codes "d1") 7 ∷ []))
      (codes "abc")
      (codes "tablet")
      7
      1000).1
    ≢ ok phone
redeem_pairing_session_once_example =
    redeem_pairing_session_once all_succeed all_succeed draws draws waiting (codes " abc ")
      (codes "abc") (codes "phone ") (codes "tablet") 6 7 1000 1000 phone phone
      (looks_up (codes "d1") 7 ∷ []) waiting-IsGuarded redeem_runs (refl, tt)

redeem_pairing_session-Paired_example :
    (index : ℕ) × (session : PairingSession) × Paired
      (cleanup_expired 6 waiting)
      (redeem_pairing_session all_succeed draws waiting (codes " abc ") (codes "phone ") 6 1000).0
      (codes " abc ")
      6
      index
      session
      phone
redeem_pairing_session-Paired_example =
    redeem_pairing_session-Paired all_succeed draws waiting (codes " abc ") (codes "phone ") 6 1000
      phone redeem_runs

abbrev guess : Text → Attempt
guess code = record {
  os = full_disk;
  draws = draws;
  code = code;
  name = codes "x";
  now = 2;
  expires = 50;
}

abbrev guesses : List Attempt
guesses =
    guess (codes "a")
    ∷ guess (codes "b")
    ∷ guess []
    ∷ guess (codes "abd")
    ∷ guess (codes "abc d")
    ∷ []

attempts_lock_out_example : (attempts waiting guesses).pairing_sessions ≡ []
unfolding text_eq trim_space
attempts_lock_out_example =
    attempts_lock_out waiting guesses waiting-IsGuarded (omega arith)
      ((refl, tt), ((refl, tt), ((refl, tt), ((refl, tt), ((refl, tt), tt))))) (omega arith)

previous_token_grace_example :
    matches_previous_refresh_token
      (cleanup_device 70 (rotated phone (codes "t2") (codes "#s2:t2") (codes "s2") 50 2000))
      (codes "t1")
      70
    ≡ ltb 70 (min (50 + previous_refresh_token_replay_grace) 2000)
unfolding matches_refresh_token hash_refresh_token text_eq trim_space
previous_token_grace_example =
    previous_token_grace phone (codes "t1") (codes "t2") (codes "#s2:t2") (codes "s2") 50 2000 70
      refl

-- The phone after the rotation from t1 to t2.
abbrev refreshed : DeviceRecord
refreshed = record phone {
  last_refreshed_at = 50;
  current_refresh_token = codes "t2";
  current_refresh_token_hash = codes "#s2:t2";
  refresh_token_salt = codes "s2";
  refresh_token_expires_at = 2000;
  previous_refresh_token_hash = codes "#s1:t1";
  previous_refresh_token_salt = codes "s1";
  previous_refresh_token_valid_until = 2000;
}

rotate_runs :
    (rotate_refresh_token all_succeed
      (some (codes "s2"))
      paired
      (codes "t1")
      (codes "t2")
      50
      2000).1
    ≡ ok refreshed
unfolding rotate_refresh_token rotate_current retire_token set_refresh_token matches_refresh_token
    hash_refresh_token commit write_registry write_file cleanup_expired cleanup_device
    session_is_active link_is_active text_eq trim_space
rotate_runs = refl

rotate_refresh_token-success_example :
    let c = cleanup_expired 50 paired in
    let t =
      (rotate_refresh_token all_succeed
        (some (codes "s2"))
        paired
        (codes "t1")
        (codes "t2")
        50
        2000).0 in
    (index : ℕ) × (d : DeviceRecord) × (IsRotation c t
        (codes "t1")
        (codes "t2")
        50
        2000
        refreshed
        index
        d
      ⊎ IsReplay c t (codes "t1") (codes "t2") 50 2000 refreshed index d)
rotate_refresh_token-success_example =
    rotate_refresh_token-success all_succeed (some (codes "s2")) paired (codes "t1") (codes "t2") 50
      2000 refreshed rotate_runs

rotate_refresh_token_retry_example :
    let t =
      (rotate_refresh_token all_succeed
        (some (codes "s2"))
        paired
        (codes "t1")
        (codes "t2")
        50
        2000).0 in
    rotate_refresh_token full_disk none t (codes "t1") (codes "t2") 70 3000 ≡ (
      cleanup_expired 70 t,
      ok (record (cleanup_device 70 refreshed) { current_refresh_token = trim_space (codes "t2") }),
    )
unfolding matches_refresh_token matches_previous_refresh_token hash_refresh_token cleanup_expired
    cleanup_device session_is_active link_is_active text_eq trim_space
rotate_refresh_token_retry_example =
    rotate_refresh_token_retry all_succeed full_disk (some (codes "s2")) none paired (codes "t1")
      (codes "t2") 50 2000 70 3000 refreshed 0 phone plain-IsFilled refl refl rotate_runs refl refl
      (omega arith) (omega arith)
