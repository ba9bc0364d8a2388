-- ===== src/Base/Lists.antt =====
-- Lists over native numbers, under the library's names, and predicates on lists by recursion.
use Prim.Native.Nat.{ℕ, zero, suc, ◌+◌, ◌<◌, ◌≤◌}
use mathlib.Core.Path.{◌≡◌, refl, subst}
use mathlib.Core.Bool.{Bool, true, false}
use mathlib.Core.List.{List, [], ◌∷◌, ◌++◌}
use mathlib.Core.Option.{Option, none, some}
use native.Mathlib.Omega.{arith}
use mathlib.Core.Logic.{◌⊎◌, inl, inr}
use mathlib.Core.Option.{some-injective}
use timich_agent.Base.Tests.{if◌then◌else◌, Bool-cases}

module _ {ℓ} {A : Type ℓ} where
  abbrev pub length : List A → ℕ
  length [] = 0
  length (x ∷ xs) = suc (length xs)

  abbrev pub get_elem? : List A → ℕ → Option A
  get_elem? [] i = none
  get_elem? (x ∷ xs) zero = some x
  get_elem? (x ∷ xs) (suc i) = get_elem? xs i

  -- A write out of range changes nothing; the source writes in range only.
  abbrev pub set : List A → ℕ → A → List A
  set [] i v = []
  set (x ∷ xs) zero v = v ∷ xs
  set (x ∷ xs) (suc i) v = x ∷ set xs i v

  -- `append(xs[:i], xs[i+1:]...)`
  abbrev pub erase_idx : List A → ℕ → List A
  erase_idx [] i = []
  erase_idx (x ∷ xs) zero = xs
  erase_idx (x ∷ xs) (suc i) = x ∷ erase_idx xs i

  -- The loop that copies the kept elements to the front of the same slice.
  abbrev pub keep_if : (A → Bool) → List A → List A
  keep_if p [] = []
  keep_if p (x ∷ xs) = let rest = keep_if p xs in if p x then x ∷ rest else rest

  -- The index of the first element that passes, and the element.
  abbrev pub find_from : (A → Bool) → ℕ → List A → Option (ℕ × A)
  find_from p i [] = none
  find_from p i (x ∷ xs) = let rest = find_from p (suc i) xs in if p x then some (i, x) else rest

  abbrev pub find_index : (A → Bool) → List A → Option (ℕ × A)
  find_index p xs = find_from p 0 xs

  abbrev pub All {κ} : (A → Type κ) → List A → Type κ
  All P [] = Unit
  All P (x ∷ xs) = P x × All P xs

module _ {ℓ} {A : Type ℓ} where
  pub length-append : (xs ys : List A) → length (xs ++ ys) ≡ length xs + length ys
  length-append [] ys = omega arith
  length-append (x ∷ xs) ys = omega (arith, length-append xs ys)

  pub length_snoc : (xs : List A) (x : A) → length (xs ++ x ∷ []) ≡ suc (length xs)
  length_snoc [] x = refl
  length_snoc (y ∷ xs) x = omega (arith, length_snoc xs x)

  pub length-set : (xs : List A) (i : ℕ) (v : A) → length (set xs i v) ≡ length xs
  length-set [] i v = refl
  length-set (x ∷ xs) zero v = refl
  length-set (x ∷ xs) (suc i) v = omega (arith, length-set xs i v)

  pub length-keep_if : (p : A → Bool) (xs : List A) → length (keep_if p xs) ≤ length xs
  length-keep_if p [] = omega arith
  length-keep_if p (x ∷ xs) = ground (arith, length-keep_if p xs)

  pub length-erase_idx :
      (xs : List A) (i : ℕ) → i < length xs → length (erase_idx xs i) + 1 ≡ length xs
  length-erase_idx [] i h = elim h [ ]
  length-erase_idx (x ∷ xs) zero h = omega arith
  length-erase_idx (x ∷ xs) (suc i) h = omega (arith, length-erase_idx xs i)

  pub length-erase_idx_le : (xs : List A) (i : ℕ) → length (erase_idx xs i) ≤ length xs
  length-erase_idx_le [] i = omega arith
  length-erase_idx_le (x ∷ xs) zero = omega arith
  length-erase_idx_le (x ∷ xs) (suc i) = omega (arith, length-erase_idx_le xs i)

-- What a search by index finds.
module _ {ℓ} {A : Type ℓ} (p : A → Bool) where
  pub find_from_sound :
      (i : ℕ) (xs : List A) (j : ℕ) (x : A)
      → find_from p i xs ≡ some (j, x)
      → (p x ≡ true) × ((k : ℕ) × (j ≡ i + k) × (get_elem? xs k ≡ some x))
  find_from_sound i [] j x h = cc
  find_from_sound i (y ∷ ys) j x h = elim (Bool-cases (p y)) [
    | inl hit ↦
        let e : ◌≡◌ {A = Option (ℕ × A)} (some (i, y)) (some (j, x)) = rw hit at h in
        (ground (arith, hit), (0, ground arith, ground arith))
    | inr miss ↦
        let (q, (k, e, g)) = find_from_sound (suc i) ys j x (rw miss at h) in
        (q, (suc k, omega arith, g))
  ]

  pub find_index_sound :
      (xs : List A) (j : ℕ) (x : A)
      → find_index p xs ≡ some (j, x)
      → (p x ≡ true) × (get_elem? xs j ≡ some x)
  find_index_sound xs j x h =
      let (q, (k, e, g)) = find_from_sound 0 xs j x h in
      let same : j ≡ k = omega arith in (q, rw same g)

  pub find_from-none : (i : ℕ) (xs : List A) → All (λ x. p x ≡ false) xs → find_from p i xs ≡ none
  find_from-none i [] h = refl
  find_from-none i (x ∷ xs) h = rw (h.0) (find_from-none (suc i) xs h.1)

  pub find_from-All : (i : ℕ) (xs : List A) → find_from p i xs ≡ none → All (λ x. p x ≡ false) xs
  find_from-All i [] h = tt
  find_from-All i (x ∷ xs) h = elim (Bool-cases (p x)) [
    | inl hit ↦ let e : ◌≡◌ {A = Option (ℕ × A)} (some (i, x)) none = rw hit at h in cc
    | inr miss ↦ (miss, find_from-All (suc i) xs (rw miss at h))
  ]

module _ {ℓ κ} {A : Type ℓ} (P : A → Type κ) where
  pub All-keep_if : (p : A → Bool) (xs : List A) → All P xs → All P (keep_if p xs)
  All-keep_if p [] h = tt
  All-keep_if p (x ∷ xs) h = elim (Bool-cases (p x)) [
    | inl e ↦ rw e (h.0, All-keep_if p xs h.1)
    | inr e ↦ rw e (All-keep_if p xs h.1)
  ]

  pub All-get_elem? : (xs : List A) (i : ℕ) (x : A) → All P xs → get_elem? xs i ≡ some x → P x
  All-get_elem? [] i x h e = cc
  All-get_elem? (y ∷ ys) zero x h e = subst P (some-injective y x e) h.0
  All-get_elem? (y ∷ ys) (suc i) x h e = All-get_elem? ys i x h.1 e

  pub All-set : (xs : List A) (i : ℕ) (x : A) → All P xs → P x → All P (set xs i x)
  All-set [] i x h q = tt
  All-set (y ∷ ys) zero x h q = (q, h.1)
  All-set (y ∷ ys) (suc i) x h q = (h.0, All-set ys i x h.1 q)

  pub All-erase_idx : (xs : List A) (i : ℕ) → All P xs → All P (erase_idx xs i)
  All-erase_idx [] i h = tt
  All-erase_idx (y ∷ ys) zero h = h.1
  All-erase_idx (y ∷ ys) (suc i) h = (h.0, All-erase_idx ys i h.1)

  pub All-append : (xs ys : List A) → All P xs → All P ys → All P (xs ++ ys)
  All-append [] ys h g = g
  All-append (x ∷ xs) ys h g = (h.0, All-append xs ys h.1 g)

pub List-cases {ℓ} :
    {A : Type ℓ} (xs : List A) → (xs ≡ []) ⊎ ((x : A) × (ys : List A) × (xs ≡ x ∷ ys))
List-cases [] = inl refl
List-cases (x ∷ xs) = inr (x, xs, refl)

pub All-imp {ℓ κ μ} :
    {A : Type ℓ} {P : A → Type κ} {Q : A → Type μ} (xs : List A)
    → ((x : A) → P x → Q x)
    → All P xs
    → All Q xs
All-imp [] f h = tt
All-imp (x ∷ xs) f h = (f x h.0, All-imp xs f h.1)
