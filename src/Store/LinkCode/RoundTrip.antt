-- ===== src/Store/LinkCode/RoundTrip.antt =====
-- Link codes that are printed, typed and read.
use timich_agent.Base.{
  ℕ, zero, suc, ◌+◌, ◌/◌, ◌%◌, ◌≡◌, refl, true, false, Option, some, List, [], ◌∷◌, ◌++◌, length,
  length_snoc, All, All-append, Text, trim_space, trim_space_clean, is_space, All-imp, ok, arith,
  Bool-cases, Option-cases, inl, inr, ◌⊎◌, ◌≢◌, is_some, text_eq_complete,
}
use timich_agent.Store.Registry.{NearbyLink}
use timich_agent.Store.LinkCode.{
  nearby_link_code_length, pad_decimal, link_code_of, nearby_link_code_exists,
  random_link_code_from, random_nearby_link_code, is_digit, link_digits, exact_length,
  normalize_nearby_link_code,
}

abbrev pub AllDigits : Text → Type 0
AllDigits s = All (λ c. is_digit c ≡ true) s

length-pad_decimal : (width value : ℕ) → length (pad_decimal width value) ≡ width
unfolding pad_decimal
length-pad_decimal zero value = refl
length-pad_decimal (suc width) value =
    grind (arith, length_snoc, length-pad_decimal width (value / 10))

pad_decimal-AllDigits : (width value : ℕ) → AllDigits (pad_decimal width value)
unfolding pad_decimal
pad_decimal-AllDigits zero value = tt
pad_decimal-AllDigits (suc width) value =
    All-append (λ c. is_digit c ≡ true) (pad_decimal width (value / 10)) ((b'0' + value % 10) ∷ [])
      (pad_decimal-AllDigits width (value / 10)) (ground arith, tt)

link_digits_of_digits : (s : Text) → AllDigits s → link_digits s ≡ some s
unfolding link_digits
link_digits_of_digits [] h = refl
link_digits_of_digits (c ∷ s) h = ground (arith, link_digits_of_digits s h.1)

digit-not_space : (c : ℕ) → is_digit c ≡ true → is_space c ≡ false
unfolding is_space
digit-not_space c h = ground arith

link_digits-append :
    (s t : Text)
    → AllDigits s
    → link_digits t ≡ some t
    → link_digits (s ++ b'-' ∷ t) ≡ some (s ++ t)
unfolding link_digits
link_digits-append [] t h e = ground arith
link_digits-append (c ∷ s) t h e = ground (arith, link_digits-append s t h.1 e)

exact_length_of_six : (s : Text) → length s ≡ nearby_link_code_length → exact_length (some s) ≡ s
unfolding exact_length
exact_length_of_six s h = ground arith

-- Six digits are read as they are, and so are six digits with a dash among them.
pub normalize_nearby_link_code_of_digits :
    (s t : Text)
    → AllDigits s
    → AllDigits t
    → length (s ++ t) ≡ nearby_link_code_length
    → (normalize_nearby_link_code (s ++ t) ≡ s ++ t)
      × (normalize_nearby_link_code (s ++ b'-' ∷ t) ≡ s ++ t)
unfolding normalize_nearby_link_code
normalize_nearby_link_code_of_digits s t h g six =
    let clean : (u : Text) → AllDigits u → All (λ c. is_space c ≡ false) u =
      λ u q. All-imp u digit-not_space q in
    let both : AllDigits (s ++ t) = All-append (λ c. is_digit c ≡ true) s t h g in
    let plain : trim_space (s ++ t) ≡ s ++ t = trim_space_clean (s ++ t) (clean (s ++ t) both) in
    let dashed : trim_space (s ++ b'-' ∷ t) ≡ s ++ b'-' ∷ t = trim_space_clean (s ++ b'-' ∷ t) (
      All-append (λ c. is_space c ≡ false) s (b'-' ∷ t) (clean s h)
        (unfold is_space in refl, clean t g)) in
    (
      rw (plain, link_digits_of_digits (s ++ t) both) (exact_length_of_six (s ++ t) six),
      rw (dashed, link_digits-append s t h (link_digits_of_digits t g))
          (exact_length_of_six (s ++ t) six),
    )

-- A printed code has six digits, and is read back as it was printed.
pub normalize-link_code_of :
    (value : ℕ)
    → (length (link_code_of value) ≡ 6)
      × AllDigits (link_code_of value)
      × (normalize_nearby_link_code (link_code_of value) ≡ link_code_of value)
unfolding link_code_of normalize_nearby_link_code
normalize-link_code_of value =
    let six : length (link_code_of value) ≡ 6 = length-pad_decimal 6 value in
    let digits : AllDigits (link_code_of value) = pad_decimal-AllDigits 6 value in
    (six, digits, (normalize_nearby_link_code_of_digits [] (link_code_of value) tt digits six).0)

random_link_code_from-fresh :
    (tries i : ℕ) (draws : ℕ → Option ℕ) (links : List NearbyLink) (code : Text)
    → random_link_code_from tries i draws links ≡ ok code
    → (nearby_link_code_exists links code ≡ false) × ((value : ℕ) × (code ≡ link_code_of value))
unfolding random_link_code_from
random_link_code_from-fresh zero i draws links code e = cc
random_link_code_from-fresh (suc tries) i draws links code e = elim (Option-cases (draws i)) [
  | inl f ↦ absurd (ground (arith, f))
  | inr (value, f) ↦ elim (Bool-cases (nearby_link_code_exists links (link_code_of value))) [
    | inl used ↦ random_link_code_from-fresh tries (suc i) draws links code (ground (arith, f))
    | inr free ↦ (ground (arith, f), (value, ground (arith, f)))
  ]
]

-- The link is consumed, or it has another code.
abbrev pub LeavesFree : Text → NearbyLink → Type 0
LeavesFree code link = (is_some link.consumed_at ≡ true) ⊎ (link.link_code ≢ code)

nearby_link_code_exists-LeavesFree :
    (links : List NearbyLink) (code : Text)
    → nearby_link_code_exists links code ≡ false
    → All (LeavesFree code) links
unfolding nearby_link_code_exists
nearby_link_code_exists-LeavesFree [] code h = tt
nearby_link_code_exists-LeavesFree (link ∷ links) code h = (
  elim (Bool-cases (is_some link.consumed_at)) [
    | inl consumed ↦ inl consumed
    | inr open_yet ↦
        inr λ same. ground (arith, h, open_yet, text_eq_complete link.link_code code same)
  ],
  nearby_link_code_exists-LeavesFree links code (ground (arith, h)),
)

-- A code drawn for a new nearby link is the code of no link but consumed ones, has six characters, and is
-- read back as it stands.
pub random_nearby_link_code-fresh :
    (draws : ℕ → Option ℕ) (links : List NearbyLink) (code : Text)
    → random_nearby_link_code draws links ≡ ok code
    → All (LeavesFree code) links × (length code ≡ 6) × (normalize_nearby_link_code code ≡ code)
unfolding random_nearby_link_code
random_nearby_link_code-fresh draws links code e =
    let (free, (value, same)) = random_link_code_from-fresh 16 0 draws links code e in
    let (six, digits, back) = normalize-link_code_of value in
    (nearby_link_code_exists-LeavesFree links code free, rw same six, rw same back)
