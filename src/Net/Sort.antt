-- ===== src/Net/Sort.antt =====
-- The order of addresses that `SortIPAddress` of provider/net.go gives, whose comparison reads the
-- slice before the sort.
use mathlib.Core.List.{Perm}
use terraform_provider_nixos.Base.{
  ℕ, zero, suc, ◌≤◌, ◌≡◌, refl, ap, ◌∙◌, Bool, false, ◌&&◌, some, List, [], ◌∷◌, length, get_elem?,
  is_empty, arith, if◌then◌else◌,
}
use terraform_provider_nixos.Base.Int.{ℤ, pos, negsuc, ltb_ℤ, ◌≤ℤ◌, ℤ_set}
use mathlib.Core.List.{Permᴰ}
use mathlib.Core.Logic.{∥∥₁_elim}
use terraform_provider_nixos.Net.{sort_ip_address, weight_at, weight_of, weight_from}
use terraform_provider_nixos.Net.SliceStable.{slice_stable, insertion_sort}
use terraform_provider_nixos.Net.SliceStable.Laws.{rises, summit, insertion_sort-first}

-- a comparison of the positions behind the first one
abbrev shift : (ℕ → ℕ → Bool) → ℕ → ℕ → Bool
shift less i j = less (suc i) (suc j)

rises-shift :
    (less : ℕ → ℕ → Bool) (j : ℕ) → rises less (suc j) ≡ (less 1 0 && rises (shift less) j)
unfolding rises
rises-shift less zero = ground arith
rises-shift less (suc j) = ground (arith, rises-shift less j)

summit-shift :
    (less : ℕ → ℕ → Bool) (n : ℕ)
    → summit less (suc n) ≡ (if less 1 0 then suc (summit (shift less) n) else 0)
unfolding summit
summit-shift less zero = ground (arith, rises-shift less 0)
summit-shift less (suc n) = ground (arith, rises-shift less (suc n), summit-shift less n)

-- the heavier of two, if the test passes
abbrev raise : Bool → ℤ → ℤ → ℤ
raise b v w = if b && ltb_ℤ w v then v else w

raise_comm : (b c : Bool) (u v w : ℤ) → raise c v (raise b u w) ≡ raise b u (raise c v w)
raise_comm b c (pos u) (pos v) (pos w) = ground arith
raise_comm b c (negsuc u) (pos v) (pos w) = ground arith
raise_comm b c (pos u) (negsuc v) (pos w) = ground arith
raise_comm b c (negsuc u) (negsuc v) (pos w) = ground arith
raise_comm b c (pos u) (pos v) (negsuc w) = ground arith
raise_comm b c (negsuc u) (pos v) (negsuc w) = ground arith
raise_comm b c (pos u) (negsuc v) (negsuc w) = ground arith
raise_comm b c (negsuc u) (negsuc v) (negsuc w) = ground arith

module _ {A : Type 0} (weight : A → ℤ) where
  -- the end of the longest start of the list along which the weights rise
  unfoldable pub climb : A → List A → A
  climb x [] = x
  climb x (y ∷ ys) = if ltb_ℤ (weight x) (weight y) then climb y ys else x

module _ {IP IPNet : Type 0} (contains : IPNet → IP → Bool) (priority : List (IPNet × ℤ)) where
  abbrev by_weight : List IP → ℕ → ℕ → Bool
  by_weight addrs i j =
      ltb_ℤ (weight_at contains priority addrs j) (weight_at contains priority addrs i)

  summit-climb :
      (x : IP) (xs : List IP)
      → get_elem? (x ∷ xs) (summit (by_weight (x ∷ xs)) (length xs))
        ≡ some (climb (weight_of contains priority) x xs)
  unfolding climb weight_at
  summit-climb x [] = unfold summit in refl
  summit-climb x (y ∷ xs) = rw summit-shift (ground (arith, summit-climb y xs))

  -- Of one to 20 addresses, and with at least one priority, the sort puts first the address at
  -- which the weights, read from the left, first fail to rise: it compares positions of the slice
  -- before the sort.
  pub sort_ip_address-first :
      (merge_blocks : (ℕ → ℕ → Bool) → List IP → List IP) (x : IP) (xs : List IP)
      → is_empty priority ≡ false
      → length (x ∷ xs) ≤ 20
      → get_elem? (sort_ip_address contains merge_blocks priority (x ∷ xs)) 0
        ≡ some (climb (weight_of contains priority) x xs)
  unfolding sort_ip_address slice_stable
  sort_ip_address-first merge_blocks x xs h k =
      ground (arith, insertion_sort-first (by_weight (x ∷ xs)) (x ∷ xs), summit-climb x xs)

  -- With at least one priority, two addresses are sorted by falling weight, and keep their order
  -- where the weights are equal.
  pub sort_ip_address_two :
      (merge_blocks : (ℕ → ℕ → Bool) → List IP → List IP) (x y : IP)
      → is_empty priority ≡ false
      → sort_ip_address contains merge_blocks priority (x ∷ y ∷ []) ≡ (
          if ltb_ℤ (weight_of contains priority x) (weight_of contains priority y)
          then y ∷ x ∷ []
          else x ∷ y ∷ [])
  unfolding sort_ip_address slice_stable insertion_sort weight_at
  sort_ip_address_two merge_blocks x y h = ground arith

  -- a weight is at least the one that it starts from
  weight_from-grows :
      (w : ℤ) (p : List (IPNet × ℤ)) (addr : IP) → w ≤ℤ weight_from contains w p addr
  unfolding weight_from
  weight_from-grows w [] addr = omega arith
  weight_from-grows w ((net, v) ∷ p) addr =
      ground (arith, weight_from-grows w p addr, weight_from-grows v p addr)

  weight_from-swap :
      (w : ℤ) (m n : IPNet × ℤ) (p : List (IPNet × ℤ)) (addr : IP)
      → weight_from contains w (m ∷ n ∷ p) addr ≡ weight_from contains w (n ∷ m ∷ p) addr
  unfolding weight_from
  weight_from-swap w (m, u) (n, v) p addr =
      ap (λ (x : ℤ). weight_from contains x p addr)
        (raise_comm (contains m addr) (contains n addr) u v w)

  weight_from-Permᴰ :
      {p q : List (IPNet × ℤ)} (w : ℤ) (addr : IP)
      → Permᴰ p q
      → weight_from contains w p addr ≡ weight_from contains w q addr
  unfolding weight_from
  weight_from-Permᴰ w addr Permᴰ.nil = refl
  weight_from-Permᴰ w addr (Permᴰ.cons {b = b} {l₁ = l} e r) =
      ap (λ (x : IPNet × ℤ). weight_from contains w (x ∷ l) addr) e
      ∙ weight_from-Permᴰ (if contains b.0 addr && ltb_ℤ w b.1 then b.1 else w) addr r
  weight_from-Permᴰ w addr (Permᴰ.swap {a = m} {b = n} {a' = a'} {l = l} e f) =
      weight_from-swap w m n l addr
      ∙ ap (λ (x : IPNet × ℤ). weight_from contains w (x ∷ m ∷ l) addr) f
      ∙ ap (λ (x : IPNet × ℤ). weight_from contains w (a' ∷ x ∷ l) addr) e
  weight_from-Permᴰ w addr (Permᴰ.trans r s) =
      weight_from-Permᴰ w addr r ∙ weight_from-Permᴰ w addr s

  -- The weight of an address does not depend on the order in which the map is visited.
  pub weight_of-perm :
      (p q : List (IPNet × ℤ)) (addr : IP)
      → Perm p q
      → weight_of contains p addr ≡ weight_of contains q addr
  unfolding weight_of
  weight_of-perm p q addr r = ∥∥₁_elim r (ℤ_set _ _) (weight_from-Permᴰ (pos 0) addr)
