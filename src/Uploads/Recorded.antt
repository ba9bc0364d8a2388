-- ===== src/Uploads/Recorded.antt =====
-- internal/store/uploads.go: what it means for the ledger to hold an asset as uploaded, said of the
-- table's rows and not by a query.
use timich_agent.Base.{
  ℕ, zero, suc, ◌≡◌, refl, ◌↔◌, Bool, true, false, Bool-cases, inl, inr, some, Option-cases, List,
  [], ◌∷◌, get_elem?, is_some, map, Text, text_eq_sound, text_eq_complete, arith,
}
use timich_agent.Uploads.Rows.{AssetRow, uploaded}
use timich_agent.Uploads.Statements.{first, is_uploaded}
use timich_agent.Uploads.Sessions.{UploadIdentity, is_uploaded_row}
use timich_agent.Uploads.Tables.{first_sound}

-- The table has a row for that version of the asset of the device, and its status is uploaded.
abbrev pub IsRecorded : Text → UploadIdentity → List AssetRow → Type 0
IsRecorded device i assets =
    (place : ℕ) × (a : AssetRow) × (get_elem? assets place ≡ some a)
    × (a.device_id ≡ device)
    × (a.source_asset_id ≡ i.source_asset_id)
    × (a.source_asset_version ≡ i.source_asset_version)
    × (a.status ≡ uploaded)

-- One answer for each asset, and it is yes exactly where the asset is recorded.
abbrev pub Answers : Text → List AssetRow → List UploadIdentity → List Bool → Type 0
Answers device assets [] [] = true ≡ true
Answers device assets [] (b ∷ bs) = true ≡ false
Answers device assets (i ∷ is) [] = true ≡ false
Answers device assets (i ∷ is) (b ∷ bs) =
    ((b ≡ true) ↔ IsRecorded device i assets) × Answers device assets is bs

module _ {A : Type 0} (q : A → Bool) where
  first-place :
      (xs : List A) (x : A) → first q xs ≡ some x → (place : ℕ) × (get_elem? xs place ≡ some x)
  first-place [] x h = cc
  first-place (y ∷ ys) x h = elim (Bool-cases (q y)) [
    | inl hit ↦ (0, ground (arith, h, hit))
    | inr miss ↦ let (n, e) = first-place ys x (ground (arith, h, miss)) in (suc n, e)
  ]

  first-found :
      (xs : List A) (place : ℕ) (x : A)
      → get_elem? xs place ≡ some x
      → q x ≡ true
      → is_some (first q xs) ≡ true
  first-found [] place x e h = cc
  first-found (y ∷ ys) zero x e h = ground (arith, e, h)
  first-found (y ∷ ys) (suc place) x e h = ground (arith, first-found ys place x e h)

is_uploaded_sound : (a : AssetRow) → is_uploaded a.status ≡ true → a.status ≡ uploaded
is_uploaded_sound a h = ground (arith, h)

found-IsRecorded :
    (device : Text) (i : UploadIdentity) (assets : List AssetRow) (a : AssetRow)
    → first (is_uploaded_row device i) assets ≡ some a
    → IsRecorded device i assets
found-IsRecorded device i assets a e =
    let passes = first_sound (is_uploaded_row device i) assets a e in
    let (place, at_place) = first-place (is_uploaded_row device i) assets a e in
    (
      place,
      a,
      at_place,
      text_eq_sound a.device_id device (ground (arith, passes)),
      text_eq_sound a.source_asset_id i.source_asset_id (ground (arith, passes)),
      text_eq_sound a.source_asset_version i.source_asset_version (ground (arith, passes)),
      is_uploaded_sound a (ground (arith, passes)),
    )

IsRecorded-found :
    (device : Text) (i : UploadIdentity) (assets : List AssetRow)
    → IsRecorded device i assets
    → is_some (first (is_uploaded_row device i) assets) ≡ true
IsRecorded-found device i assets (place, a, e, d, s, v, u) =
    first-found (is_uploaded_row device i) assets place a e (
      ground (
        arith,
        u,
        text_eq_complete a.device_id device d,
        text_eq_complete a.source_asset_id i.source_asset_id s,
        text_eq_complete a.source_asset_version i.source_asset_version v,
      ))

found_iff :
    (device : Text) (i : UploadIdentity) (assets : List AssetRow)
    → (is_some (first (is_uploaded_row device i) assets) ≡ true) ↔ IsRecorded device i assets
found_iff device i assets = (
  λ h. elim (Option-cases (first (is_uploaded_row device i) assets)) [
    | inl none_found ↦ ground (arith, h, none_found)
    | inr (a, e) ↦ found-IsRecorded device i assets a e
  ],
  IsRecorded-found device i assets,
)

-- The answers of the query are right.
pub rows-Answers :
    (device : Text) (assets : List AssetRow) (is : List UploadIdentity)
    → Answers device assets is (map (λ i. is_some (first (is_uploaded_row device i) assets)) is)
rows-Answers device assets [] = refl
rows-Answers device assets (i ∷ is) = (found_iff device i assets, rows-Answers device assets is)
