-- ===== src/Net/Filter.antt =====
-- The addresses that `FilterIPAddress` of provider/net.go lets through.
use terraform_provider_nixos.Base.{
  ℕ, zero, suc, ◌≤◌, ◌≡◌, refl, ap, Bool, false, List, [], ◌∷◌, ◌++◌, length, length-append,
  is_empty, arith, if◌then◌else◌, leb, Outcome, ok, panic, index_out_of_range, append-nil,
  append_assoc, keep, any, length-keep-le, All,
}
use terraform_provider_nixos.Net.{Cidr, filter_one, filter_each, filter_ip_address}

module _ {IP IPNet : Type 0} (contains : IPNet → IP → Bool) where
  -- how many filters contain an address
  unfoldable pub matches : List (Cidr IP IPNet) → IP → ℕ
  matches [] addr = 0
  matches (c ∷ filter) addr =
      if contains c.net addr then suc (matches filter addr) else matches filter addr

  unfoldable copies : ℕ → IP → List IP
  copies zero addr = []
  copies (suc n) addr = addr ∷ copies n addr

  -- every address, once for each filter that contains it
  unfoldable pub repeated : List (Cidr IP IPNet) → List IP → List IP
  unfolding copies
  repeated filter [] = []
  repeated filter (addr ∷ addrs) = copies (matches filter addr) addr ++ repeated filter addrs

  -- a slice of `size` elements, if these fit
  abbrev pub fitting : ℕ → List IP → Outcome (List IP)
  fitting size out = if leb (length out) size then ok out else panic index_out_of_range

  length-copies : (n : ℕ) (addr : IP) → length (copies n addr) ≡ n
  unfolding copies
  length-copies zero addr = refl
  length-copies (suc n) addr = ap suc (length-copies n addr)

  filter_one-copies :
      (size : ℕ) (filter : List (Cidr IP IPNet)) (addr : IP) (out : List IP)
      → length out ≤ size
      → filter_one contains size filter addr out
        ≡ fitting size (out ++ copies (matches filter addr) addr)
  unfolding filter_one matches copies
  filter_one-copies size [] addr out h = ground (arith, append-nil out)
  filter_one-copies size (c ∷ filter) addr out h =
      let rest = copies (matches filter addr) addr in
      ground (
        arith,
        filter_one-copies size filter addr out,
        filter_one-copies size filter addr (out ++ addr ∷ []),
        length-append out (addr ∷ []),
        append_assoc out (addr ∷ []) rest,
        length-append out (addr ∷ rest),
      )

  filter_each-repeated :
      (size : ℕ) (filter : List (Cidr IP IPNet)) (addrs out : List IP)
      → length out ≤ size
      → filter_each contains size filter addrs out ≡ fitting size (out ++ repeated filter addrs)
  unfolding filter_each repeated
  filter_each-repeated size filter [] out h = ground (arith, append-nil out)
  filter_each-repeated size filter (addr ∷ addrs) out h =
      let now = copies (matches filter addr) addr in
      ground (
        arith,
        filter_one-copies size filter addr out,
        filter_each-repeated size filter addrs (out ++ now),
        append_assoc out now (repeated filter addrs),
        length-append (out ++ now) (repeated filter addrs),
      )

  -- With a filter, the addresses come back once for each filter that contains them; the function
  -- panics exactly if these are more than the addresses that it was given.
  pub filter_ip_address-repeated :
      (filter : List (Cidr IP IPNet)) (addrs : List IP)
      → is_empty filter ≡ false
      → filter_ip_address contains filter addrs ≡ fitting (length addrs) (repeated filter addrs)
  unfolding filter_ip_address
  filter_ip_address-repeated filter addrs h =
      rw h (filter_each-repeated (length addrs) filter addrs [] (omega arith))

  -- an address that some filter contains
  abbrev pub passes : List (Cidr IP IPNet) → IP → Bool
  passes filter addr = any (λ c. contains c.net addr) filter

  matches-passes :
      (filter : List (Cidr IP IPNet)) (addr : IP)
      → matches filter addr ≤ 1
      → matches filter addr ≡ (if passes filter addr then 1 else 0)
  unfolding matches
  matches-passes [] addr h = refl
  matches-passes (c ∷ filter) addr h = ground (arith, matches-passes filter addr)

  repeated-keep :
      (filter : List (Cidr IP IPNet)) (addrs : List IP)
      → All (λ addr. matches filter addr ≤ 1) addrs
      → repeated filter addrs ≡ keep (passes filter) addrs
  unfolding repeated copies
  repeated-keep filter [] h = refl
  repeated-keep filter (addr ∷ addrs) h =
      let e = matches-passes filter addr h.0 in
      rw (e, repeated-keep filter addrs h.1) (ground arith)

  -- With a filter, and if no address lies in two of the filters, the function does not panic, and
  -- keeps the addresses that lie in one, in their order.
  pub filter_ip_address-keep :
      (filter : List (Cidr IP IPNet)) (addrs : List IP)
      → is_empty filter ≡ false
      → All (λ addr. matches filter addr ≤ 1) addrs
      → filter_ip_address contains filter addrs ≡ ok (keep (passes filter) addrs)
  filter_ip_address-keep filter addrs h k =
      rw (filter_ip_address-repeated filter addrs h, repeated-keep filter addrs k)
        (ground (arith, length-keep-le (passes filter) addrs))

  -- A single address that lies in two or more of the filters makes the function panic.
  pub filter_ip_address_overlap :
      (filter : List (Cidr IP IPNet)) (addr : IP)
      → 2 ≤ matches filter addr
      → filter_ip_address contains filter (addr ∷ []) ≡ panic index_out_of_range
  unfolding repeated
  filter_ip_address_overlap [] addr h = absurd (unfold matches in omega arith)
  filter_ip_address_overlap (c ∷ filter) addr h =
      let n = matches (c ∷ filter) addr in
      rw
        (
          filter_ip_address-repeated (c ∷ filter) (addr ∷ []) refl,
          append-nil (copies n addr),
          length-copies n addr,
        )
        (ground arith)
