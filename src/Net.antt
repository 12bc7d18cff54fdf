-- ===== src/Net.antt =====
-- provider/net.go: which addresses of a server may be used, and which is tried first. Addresses and
-- networks are those of package `net`, with its `Contains`: the definitions take them as parameters.
pub mod SliceStable
pub mod Filter
pub mod Sort
use terraform_provider_nixos.Base.{
  ℕ, String, Bool, true, false, ◌&&◌, List, [], ◌∷◌, ◌++◌, Outcome, ok, err, panic, wrapf, Error,
  index_out_of_range, ◌>>=◌, length, is_empty, ltb, if◌then◌else◌, Option, none, some, get_elem?,
}
use terraform_provider_nixos.Base.Int.{ℤ, pos, ltb_ℤ}
use terraform_provider_nixos.System.{Attempt, done, refused}
use terraform_provider_nixos.Net.SliceStable.{slice_stable}

-- `CIDR`: an address and its network
pub record Cidr (IP IPNet : Type 0) : Type 0 where
  pub ip : IP
  pub net : IPNet

module _ {IP IPNet : Type 0} where
  -- `ParseCIDR`, with `net.ParseCIDR`
  unfoldable pub parse_cidr : (String → Attempt (IP × IPNet)) → String → Outcome (Cidr IP IPNet)
  parse_cidr net_parse addr = elim (net_parse addr) [
    | done r ↦ ok (record { ip = r.0; net = r.1 })
    | refused e ↦ err (wrapf e "failed to parse cidr %q" (addr ∷ []))
  ]

module _ {IP IPNet : Type 0} (contains : IPNet → IP → Bool) where
  -- the write `addrs[i] = addr; i++` in a slice of `size` elements, of which `out` are written
  abbrev pub push : ℕ → IP → List IP → Outcome (List IP)
  push size addr out =
      if ltb (length out) size then ok (out ++ addr ∷ []) else panic index_out_of_range

  -- the inner loop, over the filters
  unfoldable pub filter_one : ℕ → List (Cidr IP IPNet) → IP → List IP → Outcome (List IP)
  filter_one size [] addr out = ok out
  filter_one size (cidr ∷ filter) addr out = do
    out' ← if contains cidr.net addr then push size addr out else ok out
    filter_one size filter addr out'

  -- the outer loop, over the addresses
  unfoldable pub filter_each : ℕ → List (Cidr IP IPNet) → List IP → List IP → Outcome (List IP)
  unfolding filter_one
  filter_each size filter [] out = ok out
  filter_each size filter (addr ∷ addrs) out = do
    out' ← filter_one size filter addr out
    filter_each size filter addrs out'

  unfoldable pub filter_ip_address : List (Cidr IP IPNet) → List IP → Outcome (List IP)
  unfolding filter_each
  filter_ip_address filter addrs =
      if is_empty filter then ok addrs else filter_each (length addrs) filter addrs []

  -- the loop over `priority` for one address, from the weight so far
  unfoldable pub weight_from : ℤ → List (IPNet × ℤ) → IP → ℤ
  weight_from w [] addr = w
  weight_from w ((network, weight) ∷ priority) addr =
      weight_from (if contains network addr && ltb_ℤ w weight then weight else w) priority addr

  unfoldable pub weight_of : List (IPNet × ℤ) → IP → ℤ
  unfolding weight_from
  weight_of priority addr = weight_from (pos 0) priority addr

  -- the weight of `in[i]`; the sort asks only for positions of the slice
  unfoldable pub weight_at : List (IPNet × ℤ) → List IP → ℕ → ℤ
  unfolding weight_of
  weight_at priority addrs i = elim (get_elem? addrs i) [
    | none ↦ pos 0
    | some addr ↦ weight_of priority addr
  ]

  -- The comparison looks at `in`, which the sort does not move, not at the slice that it sorts.
  unfoldable pub sort_ip_address :
      ((ℕ → ℕ → Bool) → List IP → List IP) → List (IPNet × ℤ) → List IP → List IP
  unfolding weight_at
  sort_ip_address merge_blocks priority addrs =
      if is_empty priority
      then addrs
      else slice_stable merge_blocks
          (λ i j. ltb_ℤ (weight_at priority addrs j) (weight_at priority addrs i)) addrs
