-- ===== src/Net/SliceStable.antt =====
-- `sort.SliceStable` of Go's library, with a comparison of positions that the moves of the sort do
-- not change. A slice of at most 20 elements is one block, which is sorted by insertion; the merging
-- of several blocks is a parameter.
pub mod Laws
use terraform_provider_nixos.Base.{
  ℕ, zero, suc, ◌-◌, Bool, List, [], ◌∷◌, length, leb, if◌then◌else◌,
}

module _ {ℓ} {A : Type ℓ} where
  -- `swap(j, j-1)`, by the lower position
  unfoldable pub swap_at : ℕ → List A → List A
  swap_at zero (x ∷ y ∷ xs) = y ∷ x ∷ xs
  swap_at (suc j) (x ∷ xs) = x ∷ swap_at j xs
  swap_at _ xs = xs

  module _ (less : ℕ → ℕ → Bool) where
    -- `for j := i; j > 0 && less(j, j-1); j-- { swap(j, j-1) }`
    unfoldable pub sift : ℕ → List A → List A
    unfolding swap_at
    sift zero xs = xs
    sift (suc j) xs = let moved = sift j (swap_at j xs) in if less (suc j) j then moved else xs

    -- `for i := 1; i < n; i++`, the rounds up to position `n`
    unfoldable pub sift_up_to : ℕ → List A → List A
    unfolding sift
    sift_up_to zero xs = xs
    sift_up_to (suc i) xs = sift (suc i) (sift_up_to i xs)

    unfoldable pub insertion_sort : List A → List A
    unfolding sift_up_to
    insertion_sort xs = sift_up_to (length xs - 1) xs

  unfoldable pub slice_stable :
      ((ℕ → ℕ → Bool) → List A → List A) → (ℕ → ℕ → Bool) → List A → List A
  unfolding insertion_sort
  slice_stable merge_blocks less xs =
      if leb (length xs) 20 then insertion_sort less xs else merge_blocks less xs
