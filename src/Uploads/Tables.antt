-- ===== src/Uploads/Tables.antt =====
-- What the statements do to the number of rows that pass a test, and to the first such row.
use timich_agent.Base.{
  ◌+◌, ◌≤◌, ◌≡◌, refl, Bool, true, false, Bool-cases, ◌⊎◌, inl, inr, Option-cases, none, some, ap,
  ◌∙◌, List, [], ◌∷◌, ◌++◌, if◌then◌else◌, is_some, arith,
}
use timich_agent.Uploads.Statements.{first, update_where, count_where, delete_where}

module _ {A : Type 0} (q : A → Bool) where
  pub count_where-snoc :
      (xs : List A) (x : A)
      → count_where q (xs ++ x ∷ []) ≡ count_where q xs + (if q x then 1 else 0)
  count_where-snoc [] x = omega arith
  count_where-snoc (y ∷ ys) x = omega (arith, count_where-snoc ys x)

  pub count_where-update :
      (p : A → Bool) (f : A → A)
      → ((x : A) → q (f x) ≡ q x)
      → (xs : List A) → count_where q (update_where p f xs) ≡ count_where q xs
  count_where-update p f same [] = refl
  count_where-update p f same (x ∷ xs) = ground (arith, same x, count_where-update p f same xs)

  pub count_where-delete :
      (p : A → Bool) (xs : List A) → count_where q (delete_where p xs) ≤ count_where q xs
  count_where-delete p [] = omega arith
  count_where-delete p (x ∷ xs) = ground (arith, count_where-delete p xs)

  pub count_where-none : (xs : List A) → is_some (first q xs) ≡ false → count_where q xs ≡ 0
  count_where-none [] h = refl
  count_where-none (x ∷ xs) h = ground (arith, count_where-none xs)

  pub first-none : (xs : List A) → count_where q xs ≡ 0 → first q xs ≡ none
  first-none [] h = refl
  first-none (x ∷ xs) h = ground (arith, first-none xs)

  pub first-count : (xs : List A) (x : A) → first q xs ≡ some x → 1 ≤ count_where q xs
  first-count [] x h = cc
  first-count (y ∷ ys) x h = ground (arith, first-count ys x)

  pub first_sound : (xs : List A) (x : A) → first q xs ≡ some x → q x ≡ true
  first_sound [] x h = cc
  first_sound (y ∷ ys) x h = ground (arith, first_sound ys x)

  pub first-snoc :
      (xs : List A) (x : A) → is_some (first q xs) ≡ true → first q (xs ++ x ∷ []) ≡ first q xs
  first-snoc [] x h = cc
  first-snoc (y ∷ ys) x h = ground (arith, first-snoc ys x)

  pub first-snoc_none :
      (xs : List A) (x : A)
      → first q xs ≡ none
      → first q (xs ++ x ∷ []) ≡ (if q x then some x else none)
  first-snoc_none [] x h = refl
  first-snoc_none (y ∷ ys) x h = ground (arith, first-snoc_none ys x)

  pub first-update :
      (p : A → Bool) (f : A → A)
      → ((x : A) → q (f x) ≡ q x)
      → (xs : List A) (x : A) → first q xs ≡ some x
      → first q (update_where p f xs) ≡ some (if p x then f x else x)
  first-update p f same [] x h = cc
  first-update p f same (y ∷ ys) x h = ground (arith, same y, first-update p f same ys x)

  pub first-update_none :
      (p : A → Bool) (f : A → A)
      → ((x : A) → q (f x) ≡ q x)
      → (xs : List A) → first q xs ≡ none
      → first q (update_where p f xs) ≡ none
  first-update_none p f same [] h = refl
  first-update_none p f same (y ∷ ys) h = ground (arith, same y, first-update_none p f same ys)

  -- Of a table with at most one such row, the row stays or none is left.
  pub first-delete :
      (p : A → Bool) (xs : List A)
      → count_where q xs ≤ 1
      → (first q (delete_where p xs) ≡ none) ⊎ (first q (delete_where p xs) ≡ first q xs)
  first-delete p [] h = inl refl
  first-delete p (x ∷ xs) h = elim (Bool-cases (q x)) [
    | inl hit ↦ elim (Bool-cases (p x)) [
      | inl e ↦ inl (ground (arith, first-none (delete_where p xs), count_where-delete p xs))
      | inr e ↦ inr (ground arith)
    ]
    | inr miss ↦ elim (first-delete p xs (ground arith)) [
      | inl e ↦ inl (ground (arith, e))
      | inr e ↦ inr (ground (arith, e))
    ]
  ]

  pub first-delete_kept :
      (p : A → Bool) (xs : List A) (x : A)
      → first q xs ≡ some x
      → p x ≡ false
      → first q (delete_where p xs) ≡ some x
  first-delete_kept p [] x h k = cc
  first-delete_kept p (y ∷ ys) x h k = ground (arith, first-delete_kept p ys x)

  count_where-first :
      (p : A → Bool) (xs : List A) (y : A) → first p xs ≡ some y → q y ≡ true → 1 ≤ count_where q xs
  count_where-first p [] y l m = cc
  count_where-first p (z ∷ zs) y l m = elim (Bool-cases (p z)) [
    | inl e ↦ ground (arith, e)
    | inr e ↦ ground (arith, e, count_where-first p zs y)
  ]

  -- A row of a table with at most one such row is the first.
  pub first_unique :
      (p : A → Bool) (xs : List A) (x y : A)
      → count_where q xs ≤ 1
      → first q xs ≡ some x
      → first p xs ≡ some y
      → q y ≡ true
      → x ≡ y
  first_unique p [] x y h k l m = cc
  first_unique p (z ∷ zs) x y h k l m = elim (Bool-cases (q z)) [
    | inl hit ↦ elim (Bool-cases (p z)) [
      | inl e ↦ ground (arith, e)
      | inr e ↦ ground (arith, e, count_where-first p zs y)
    ]
    | inr miss ↦ elim (Bool-cases (p z)) [
      | inl e ↦ ground (arith, e)
      | inr e ↦ ground (arith, e, first_unique p zs x y)
    ]
  ]

  -- A row that no other row clashes with may be added.
  pub count_where-add :
      (xs : List A) (x : A)
      → (q x ≡ true → is_some (first q xs) ≡ false)
      → count_where q xs ≤ 1
      → count_where q (xs ++ x ∷ []) ≤ 1
  count_where-add xs x fresh h = elim (Bool-cases (q x)) [
    | inl e ↦ ground (arith, e, count_where-snoc xs x, count_where-none xs (fresh e))
    | inr e ↦ ground (arith, e, count_where-snoc xs x)
  ]

  pub first-other :
      (p : A → Bool) (xs : List A) (y : A)
      → count_where q xs ≤ 1
      → first p xs ≡ some y
      → q y ≡ true
      → first q xs ≡ some y
  first-other p xs y h l m = elim (Option-cases (first q xs)) [
    | inl e ↦ ground (arith, count_where-first p xs y l m, count_where-none xs (ap is_some e))
    | inr (x, e) ↦ e ∙ ap some (first_unique p xs x y h e l m)
  ]

  -- The first row that passes the weaker of two tests, if it passes the stronger one.
  pub first-stronger :
      (p : A → Bool) (xs : List A) (y : A)
      → ((x : A) → p x ≡ true → q x ≡ true)
      → first q xs ≡ some y
      → p y ≡ true
      → first p xs ≡ some y
  first-stronger p [] y imp l m = cc
  first-stronger p (z ∷ zs) y imp l m = elim (Bool-cases (q z)) [
    | inl e ↦ ground (arith, e, l, m)
    | inr e ↦ ground (arith, e, l, m, imp z, first-stronger p zs y imp)
  ]

  pub count_where-update_none :
      (p : A → Bool) (f : A → A)
      → ((x : A) → q x ≡ false → p x ≡ true → q (f x) ≡ false)
      → (xs : List A) → count_where q xs ≡ 0
      → count_where q (update_where p f xs) ≡ 0
  count_where-update_none p f k [] h = refl
  count_where-update_none p f k (x ∷ xs) h =
      ground (arith, h, k x, count_where-update_none p f k xs)

  -- A stronger test is passed by no more rows.
  pub count_where-stronger :
      (p : A → Bool)
      → ((x : A) → p x ≡ true → q x ≡ true)
      → (xs : List A) → count_where p xs ≤ count_where q xs
  count_where-stronger p k [] = omega arith
  count_where-stronger p k (x ∷ xs) = ground (arith, k x, count_where-stronger p k xs)
