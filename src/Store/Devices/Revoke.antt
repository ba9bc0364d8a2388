-- ===== src/Store/Devices/Revoke.antt =====
-- A revoked device is gone.
use timich_agent.Base.{
  ℕ, zero, suc, ◌+◌, ◌≡◌, refl, sym, subst, Bool-cases, false, Option, some, List, [], ◌∷◌, map,
  find_from, find_from_sound, find_from-none, find_index, erase_idx, All, Option-cases, inl, inr,
  Text, text_eq_sound, trim_space, is_empty, ok, arith,
}
use timich_agent.AtomicFile.{Syscalls}
use timich_agent.Store.Registry.{DeviceRecord, DeviceRegistryStore}
use timich_agent.Store.File.{commit, commit-success}
use timich_agent.Store.Cleanup.{cleanup_device, cleanup_expired}
use timich_agent.Store.Devices.{has_id, has_device, revoke_device}

-- No two devices have the same id.
abbrev pub Distinct : List DeviceRecord → Type 0
Distinct [] = Unit
Distinct (d ∷ ds) = All (λ e. has_id d.device_id e ≡ false) ds × Distinct ds

abbrev Lacks : Text → List DeviceRecord → Type 0
Lacks id ds = All (λ e. has_id id e ≡ false) ds

cleanup_device-id : (now : ℕ) (d : DeviceRecord) → (cleanup_device now d).device_id ≡ d.device_id
unfolding cleanup_device
cleanup_device-id now d = ground arith

map-cleanup-Lacks :
    (now : ℕ) (id : Text) (ds : List DeviceRecord)
    → Lacks id ds
    → Lacks id (map (cleanup_device now) ds)
map-cleanup-Lacks now id [] h = tt
map-cleanup-Lacks now id (d ∷ ds) h =
    (rw (cleanup_device-id now d) (h.0), map-cleanup-Lacks now id ds h.1)

map-cleanup-Distinct :
    (now : ℕ) (ds : List DeviceRecord) → Distinct ds → Distinct (map (cleanup_device now) ds)
map-cleanup-Distinct now [] h = tt
map-cleanup-Distinct now (d ∷ ds) h = (
  rw (cleanup_device-id now d) (map-cleanup-Lacks now d.device_id ds h.0),
  map-cleanup-Distinct now ds h.1,
)

erase_idx-Lacks :
    (id : Text) (k m : ℕ) (ds : List DeviceRecord) (d : DeviceRecord)
    → Distinct ds
    → find_from (has_id id) k ds ≡ some (k + m, d)
    → Lacks id (erase_idx ds m)
erase_idx-Lacks id k m [] d h e = tt
erase_idx-Lacks id k zero (x ∷ xs) d h e = elim (Bool-cases (has_id id x)) [
  | inl hit ↦ subst (λ i. Lacks i xs) (text_eq_sound x.device_id id hit) h.0
  | inr miss ↦
      let (q, (n, past, g)) = find_from_sound (has_id id) (suc k) xs (k + 0) d (rw miss at e) in
      absurd (omega arith)
]
erase_idx-Lacks id k (suc m) (x ∷ xs) d h e = elim (Bool-cases (has_id id x)) [
  | inl hit ↦
      let now_here : ◌≡◌ {A = Option (ℕ × DeviceRecord)} (some (k, x)) (some (k + suc m, d)) =
        rw hit at e in
      absurd (ground arith)
  | inr miss ↦
      let further : find_from (has_id id) (suc k) xs ≡ some (k + suc m, d) = rw miss at e in
      (miss, erase_idx-Lacks id (suc k) m xs d h.1 (ground arith))
]

revoked :
    (c : DeviceRegistryStore) (id : Text) (later : ℕ) (i : ℕ) (d : DeviceRecord)
    (t : DeviceRegistryStore)
    → Distinct c.devices
    → find_index (has_id id) c.devices ≡ some (i, d)
    → t.devices ≡ erase_idx c.devices i
    → (has_device t id later).1 ≡ false
unfolding has_device cleanup_expired
revoked c id later i d t h e same =
    let gone : Lacks id (map (cleanup_device later) t.devices) =
      map-cleanup-Lacks later id t.devices
        (subst (Lacks id) (sym same) (erase_idx-Lacks id 0 i c.devices d h (ground arith))) in
    rw (find_from-none (has_id id) 0 (map (cleanup_device later) t.devices) gone) refl

-- Where the devices have distinct ids and a revocation succeeds, the next lookup of the trimmed id, at
-- whatever time, finds no device.
pub revoke_device-has_device :
    (os : Syscalls) (s : DeviceRegistryStore) (id : Text) (now later : ℕ)
    → Distinct s.devices
    → (revoke_device os s id now).1 ≡ ok tt
    → (has_device (revoke_device os s id now).0 (trim_space id) later).1 ≡ false
unfolding revoke_device
revoke_device-has_device os s id now later h =
    let c : DeviceRegistryStore = cleanup_expired now s in
    let g : Distinct c.devices = unfold cleanup_expired in map-cleanup-Distinct now s.devices h in
    elim (Bool-cases (is_empty (trim_space id))) [
      | inl blank ↦ rw (blank, revoke_device) (λ e. cc)
      | inr filled ↦ elim (Option-cases (find_index (has_id (trim_space id)) c.devices)) [
        | inl missing ↦ rw (filled, missing, revoke_device) (λ e. cc)
        | inr ((i, d), found) ↦
            rw (filled, found, revoke_device)
              (λ e.
                revoked c (trim_space id) later i d
                  (commit os c (record c.registry { devices = erase_idx c.devices i }) tt).0 g found
                  (ground (
                    arith,
                    commit-success os c (record c.registry { devices = erase_idx c.devices i }) tt
                        tt e,
                  )))
      ]
    ]
