-- ===== src/Net/SliceStable/Laws.antt =====
-- What the insertion sort does with a comparison of fixed positions.
use terraform_provider_nixos.Base.{
  ℕ, zero, suc, ◌-◌, ◌<◌, ◌≡◌, refl, ap, ◌∙◌, Bool, true, ◌&&◌, List, [], ◌∷◌, length, get_elem?,
  arith, if◌then◌else◌,
}
use terraform_provider_nixos.Net.SliceStable.{swap_at, sift, sift_up_to, insertion_sort}

module _ (less : ℕ → ℕ → Bool) where
  -- each of the positions 1, …, j compares as less than the one before it
  unfoldable pub rises : ℕ → Bool
  rises zero = true
  rises (suc j) = less (suc j) j && rises j

  -- the last position up to `i` below which all rises
  unfoldable pub summit : ℕ → ℕ
  unfolding rises
  summit zero = 0
  summit (suc i) = if rises (suc i) then suc i else summit i

module _ {ℓ} {A : Type ℓ} where
  length-swap_at : (j : ℕ) (xs : List A) → length (swap_at j xs) ≡ length xs
  unfolding swap_at
  length-swap_at zero (x ∷ y ∷ xs) = refl
  length-swap_at (suc j) (x ∷ xs) = ap suc (length-swap_at j xs)
  length-swap_at _ xs = refl

  swap_at-low :
      (j : ℕ) (xs : List A) → suc j < length xs → get_elem? (swap_at j xs) j ≡ get_elem? xs (suc j)
  unfolding swap_at
  swap_at-low zero (x ∷ y ∷ xs) h = refl
  swap_at-low (suc j) (x ∷ xs) h = swap_at-low j xs (omega arith)
  swap_at-low zero [] h = absurd (omega arith)
  swap_at-low zero (x ∷ []) h = absurd (omega arith)
  swap_at-low (suc j) [] h = absurd (omega arith)

  swap_at-above : (j k : ℕ) (xs : List A) → suc j < k → get_elem? (swap_at j xs) k ≡ get_elem? xs k
  unfolding swap_at
  swap_at-above zero (suc (suc k)) (x ∷ y ∷ xs) h = refl
  swap_at-above (suc j) (suc k) (x ∷ xs) h = swap_at-above j k xs (omega arith)
  swap_at-above zero k xs h = ground arith
  swap_at-above (suc j) k xs h = ground arith

  swap_at-first : (j : ℕ) (xs : List A) → get_elem? (swap_at (suc j) xs) 0 ≡ get_elem? xs 0
  unfolding swap_at
  swap_at-first j [] = refl
  swap_at-first j (x ∷ xs) = refl

  module _ (less : ℕ → ℕ → Bool) where
    -- The element that is inserted reaches the front if all positions below it rise.
    sift-first :
        (j : ℕ) (xs : List A)
        → j < length xs
        → get_elem? (sift less j xs) 0 ≡ (if rises less j then get_elem? xs j else get_elem? xs 0)
    unfolding sift rises
    sift-first zero xs h = refl
    sift-first (suc zero) xs h = ground (arith, swap_at-low 0 xs h)
    sift-first (suc (suc j)) xs h = ground (
      arith,
      sift-first (suc j) (swap_at (suc j) xs),
      swap_at-low (suc j) xs,
      swap_at-first j xs,
      length-swap_at (suc j) xs,
    )

    sift-above : (j k : ℕ) (xs : List A) → j < k → get_elem? (sift less j xs) k ≡ get_elem? xs k
    unfolding sift
    sift-above zero k xs h = refl
    sift-above (suc j) k xs h =
        ground (arith, sift-above j k (swap_at j xs) (omega arith), swap_at-above j k xs h)

    sift_up_to-above :
        (i k : ℕ) (xs : List A) → i < k → get_elem? (sift_up_to less i xs) k ≡ get_elem? xs k
    unfolding sift_up_to
    sift_up_to-above zero k xs h = refl
    sift_up_to-above (suc i) k xs h =
        sift-above (suc i) k (sift_up_to less i xs) h ∙ sift_up_to-above i k xs (omega arith)

    length-sift : (j : ℕ) (xs : List A) → length (sift less j xs) ≡ length xs
    unfolding sift
    length-sift zero xs = refl
    length-sift (suc j) xs = ground (arith, length-sift j (swap_at j xs), length-swap_at j xs)

    length-sift_up_to : (i : ℕ) (xs : List A) → length (sift_up_to less i xs) ≡ length xs
    unfolding sift_up_to
    length-sift_up_to zero xs = refl
    length-sift_up_to (suc i) xs =
        length-sift (suc i) (sift_up_to less i xs) ∙ length-sift_up_to i xs

    sift_up_to-first :
        (i : ℕ) (xs : List A)
        → i < length xs
        → get_elem? (sift_up_to less i xs) 0 ≡ get_elem? xs (summit less i)
    unfolding sift_up_to summit
    sift_up_to-first zero xs h = refl
    sift_up_to-first (suc i) xs h = ground (
      arith,
      sift-first (suc i) (sift_up_to less i xs),
      length-sift_up_to i xs,
      sift_up_to-above i (suc i) xs,
      sift_up_to-first i xs,
    )

    -- The sort puts the element of the summit first.
    pub insertion_sort-first :
        (xs : List A)
        → 0 < length xs
        → get_elem? (insertion_sort less xs) 0 ≡ get_elem? xs (summit less (length xs - 1))
    unfolding insertion_sort
    insertion_sort-first xs h = sift_up_to-first (length xs - 1) xs (omega arith)
