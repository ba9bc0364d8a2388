-- ===== src/Store/Devices/Oldest.antt =====
-- Which device oldestReviewDeviceIndex finds.
use timich_agent.Base.{
  ℕ, zero, suc, ◌+◌, ◌≤◌, ◌<◌, ◌≡◌, refl, sym, ◌∙◌, ◌⊎◌, inl, inr, true, Option, none, some, List,
  [], ◌∷◌, length, get_elem?, All, arith, Bool-cases,
}
use timich_agent.Store.Registry.{DeviceRecord}
use timich_agent.Store.Devices.{older_review, oldest_review_from, oldest_review_device}

abbrev pub Found : Type 0
Found = Option (ℕ × DeviceRecord)

abbrev pub IsReview : Found → Type 0
IsReview none = Unit
IsReview (some (i, o)) = o.review_only ≡ true

-- A device is found, and it was last refreshed at `n` or before.
abbrev pub AtMost : ℕ → Found → Type 0
AtMost n none = ⊥
AtMost n (some (i, o)) = o.last_refreshed_at ≤ n

abbrev pub IsAt : List DeviceRecord → Found → Type 0
IsAt ds none = Unit
IsAt ds (some (i, o)) = get_elem? ds i ≡ some o

older_review-IsReview :
    (r : Found) (i : ℕ) (d : DeviceRecord) → IsReview r → IsReview (older_review r i d)
unfolding older_review
older_review-IsReview none i d h = elim (Bool-cases d.review_only) [
  | inl e ↦ rw e refl
  | inr e ↦ rw e tt
]
older_review-IsReview (some (j, o)) i d h = ground arith

older_review-AtMost :
    (n : ℕ) (r : Found) (i : ℕ) (d : DeviceRecord) → AtMost n r → AtMost n (older_review r i d)
unfolding older_review
older_review-AtMost n none i d h = absurd h
older_review-AtMost n (some (j, o)) i d h = ground arith

older_review-AtMost_new :
    (r : Found) (i : ℕ) (d : DeviceRecord)
    → d.review_only ≡ true
    → AtMost d.last_refreshed_at (older_review r i d)
unfolding older_review
older_review-AtMost_new none i d h = rw h (omega arith)
older_review-AtMost_new (some (j, o)) i d h = ground arith

-- The index counts from where the loop starts, over the devices that are still to come.
abbrev IsFrom : ℕ → List DeviceRecord → Found → Found → Type 0
IsFrom index ds start none = Unit
IsFrom index ds start (some (i, o)) =
    (start ≡ some (i, o)) ⊎ ((k : ℕ) × (i ≡ index + k) × (get_elem? ds k ≡ some o))

older_review_cases :
    (r : Found) (i : ℕ) (d : DeviceRecord)
    → (older_review r i d ≡ r) ⊎ (older_review r i d ≡ some (i, d))
unfolding older_review
older_review_cases none i d = ground arith
older_review_cases (some (j, o)) i d = ground arith

oldest_review_from-IsFrom :
    (start : Found) (index : ℕ) (ds : List DeviceRecord) (i : ℕ) (o : DeviceRecord)
    → oldest_review_from start index ds ≡ some (i, o)
    → IsFrom index ds start (some (i, o))
unfolding oldest_review_from
oldest_review_from-IsFrom start index [] i o h = inl h
oldest_review_from-IsFrom start index (d ∷ ds) i o h =
    elim (oldest_review_from-IsFrom (older_review start index d) (suc index) ds i o h) [
      | inl e ↦ elim (older_review_cases start index d) [
        | inl same ↦ inl (sym same ∙ e)
        | inr new ↦
            let p : ◌≡◌ {A = Found} (some (index, d)) (some (i, o)) = sym new ∙ e in
            inr (0, ground arith, ground arith)
      ]
      | inr (k, e, g) ↦ inr (suc k, omega arith, g)
    ]

oldest_review_from-IsReview :
    (start : Found) (index : ℕ) (ds : List DeviceRecord)
    → IsReview start
    → IsReview (oldest_review_from start index ds)
unfolding oldest_review_from
oldest_review_from-IsReview start index [] h = h
oldest_review_from-IsReview start index (d ∷ ds) h =
    oldest_review_from-IsReview (older_review start index d) (suc index) ds
      (older_review-IsReview start index d h)

oldest_review_from-AtMost :
    (n : ℕ) (start : Found) (index : ℕ) (ds : List DeviceRecord)
    → AtMost n start
    → AtMost n (oldest_review_from start index ds)
unfolding oldest_review_from
oldest_review_from-AtMost n start index [] h = h
oldest_review_from-AtMost n start index (d ∷ ds) h =
    oldest_review_from-AtMost n (older_review start index d) (suc index) ds
      (older_review-AtMost n start index d h)

-- `r` is no later than any review device of the list, and missing only if there is none.
abbrev pub IsOldest : List DeviceRecord → Found → Type 0
IsOldest ds r = All (λ d. d.review_only ≡ true → AtMost d.last_refreshed_at r) ds

oldest_review_from-IsOldest :
    (start : Found) (index : ℕ) (ds : List DeviceRecord)
    → IsOldest ds (oldest_review_from start index ds)
unfolding oldest_review_from
oldest_review_from-IsOldest start index [] = tt
oldest_review_from-IsOldest start index (d ∷ ds) = (
  λ h.
      oldest_review_from-AtMost d.last_refreshed_at (older_review start index d) (suc index) ds
        (older_review-AtMost_new start index d h),
  oldest_review_from-IsOldest (older_review start index d) (suc index) ds,
)

pub oldest_review_device-IsAt :
    (ds : List DeviceRecord) (i : ℕ) (o : DeviceRecord)
    → oldest_review_device ds ≡ some (i, o)
    → get_elem? ds i ≡ some o
unfolding oldest_review_device
oldest_review_device-IsAt ds i o h = elim (oldest_review_from-IsFrom none 0 ds i o h) [
  | inl e ↦ cc
  | inr (k, e, g) ↦ let same : i ≡ k = omega arith in rw same g
]

get_elem?-lt {ℓ} :
    {A : Type ℓ} (xs : List A) (i : ℕ) (a : A) → get_elem? xs i ≡ some a → i < length xs
get_elem?-lt [] i a h = cc
get_elem?-lt (x ∷ xs) zero a h = omega arith
get_elem?-lt (x ∷ xs) (suc i) a h = omega (arith, get_elem?-lt xs i a h)

pub oldest_review_device-lt :
    (ds : List DeviceRecord) (i : ℕ) (o : DeviceRecord)
    → oldest_review_device ds ≡ some (i, o)
    → i < length ds
oldest_review_device-lt ds i o h = get_elem?-lt ds i o (oldest_review_device-IsAt ds i o h)

-- oldestReviewDeviceIndex finds a review device at the index that it returns, no review device was
-- refreshed before it, and it finds none only if there is no review device.
pub oldest_review_device-IsOldest :
    (ds : List DeviceRecord)
    → IsReview (oldest_review_device ds)
      × IsAt ds (oldest_review_device ds)
      × IsOldest ds (oldest_review_device ds)
unfolding oldest_review_device
oldest_review_device-IsOldest ds = (
  oldest_review_from-IsReview none 0 ds tt,
  at (oldest_review_device ds) refl,
  oldest_review_from-IsOldest none 0 ds,
)
  where
    at : (r : Found) → oldest_review_device ds ≡ r → IsAt ds r
    at none e = tt
    at (some (i, o)) e = oldest_review_device-IsAt ds i o e
