-- ===== src/Store/LinkCode.antt =====
-- internal/store/nearby_link.go: link codes and device kinds.
pub mod RoundTrip
use timich_agent.Base.{
  ℕ, zero, suc, ◌+◌, ◌/◌, ◌%◌, Bool, false, not, ◌&&◌, ◌||◌, Option, none, some, List, [], ◌∷◌,
  ◌++◌, map, leb, ◌==◌, if◌then◌else◌, is_some, length, Text, codes, text_eq, trim_space, Result,
  ok, err,
}
use timich_agent.Store.Registry.{StoreError, nearby_link_limit_reached, random_failed, NearbyLink}

abbrev pub nearby_link_code_length : ℕ
nearby_link_code_length = 6

abbrev pub nearby_link_code_generation_tries : ℕ
nearby_link_code_generation_tries = 16

-- `fmt.Sprintf("%0*d", width, value)` for a value of at most `width` digits, as rand.Int gives.
unfoldable pub pad_decimal : ℕ → ℕ → Text
pad_decimal zero value = []
pad_decimal (suc width) value = pad_decimal width (value / 10) ++ (b'0' + value % 10) ∷ []

-- randomNearbyLinkCode, from what rand.Int gives.
unfoldable pub link_code_of : ℕ → Text
unfolding pad_decimal
link_code_of value = pad_decimal nearby_link_code_length value

unfoldable pub nearby_link_code_exists : List NearbyLink → Text → Bool
nearby_link_code_exists [] code = false
nearby_link_code_exists (link ∷ links) code =
    (not (is_some link.consumed_at) && text_eq link.link_code code)
    || nearby_link_code_exists links code

-- The loop of randomNearbyLinkCodeLocked; `draws i` is what the i-th call of rand.Int gives.
unfoldable pub random_link_code_from :
    ℕ → ℕ → (ℕ → Option ℕ) → List NearbyLink → Result StoreError Text
random_link_code_from zero i draws links = err nearby_link_limit_reached
random_link_code_from (suc tries) i draws links =
    let rest = random_link_code_from tries (suc i) draws links in
    elim (draws i) [
      | none ↦ err random_failed
      | some value ↦
          if not (nearby_link_code_exists links (link_code_of value))
          then ok (link_code_of value)
          else rest
    ]

unfoldable pub random_nearby_link_code : (ℕ → Option ℕ) → List NearbyLink → Result StoreError Text
unfolding random_link_code_from
random_nearby_link_code draws links =
    random_link_code_from nearby_link_code_generation_tries 0 draws links

abbrev pub is_digit : ℕ → Bool
is_digit c = leb b'0' c && leb c b'9'

-- The loop of normalizeNearbyLinkCode: the digits, or `none` at any other character but ' ' and '-'.
unfoldable pub link_digits : Text → Option Text
link_digits [] = some []
link_digits (c ∷ s) =
    let rest = link_digits s in
    if is_digit c
    then elim rest [ none ↦ none | some digits ↦ some (c ∷ digits) ]
    else if c == b' ' || c == b'-'
    then rest
    else none

unfoldable pub exact_length : Option Text → Text
exact_length none = []
exact_length (some digits) = if not (length digits == nearby_link_code_length) then [] else digits

unfoldable pub normalize_nearby_link_code : Text → Text
unfolding link_digits exact_length
normalize_nearby_link_code value = exact_length (link_digits (trim_space value))

-- unicode.ToLower where it gives an ASCII letter; elsewhere its result is no ASCII character.
unfoldable pub to_lower : ℕ → ℕ
to_lower c =
    if leb b'A' c && leb c b'Z'
    then c + 32
    else if c == 0x130
    then b'i'
    else if c == 0x212a
    then b'k'
    else c

unfoldable pub normalize_nearby_link_device_kind : Text → Text
unfolding to_lower
normalize_nearby_link_device_kind value =
    let normalized = map to_lower (trim_space value) in
    if text_eq normalized (codes "android_tv")
      || (text_eq normalized (codes "ios")
          || (text_eq normalized (codes "android") || text_eq normalized (codes "mcp")))
    then normalized
    else codes "unknown"
