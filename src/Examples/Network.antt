-- ===== src/Examples/Network.antt =====
-- Addresses, filters and priorities.
use terraform_provider_nixos.Base.{
  ◌=ₛ◌, if◌then◌else◌, ℕ, ◌≡◌, refl, List, [], ◌∷◌, some, ok, panic, index_out_of_range, arith,
  get_elem?,
}
use terraform_provider_nixos.Base.Int.{ℤ, pos}
use terraform_provider_nixos.Net.{Cidr, filter_ip_address, sort_ip_address, weight_of}
use terraform_provider_nixos.Net.Filter.{
  filter_ip_address-repeated, filter_ip_address-keep, filter_ip_address_overlap, repeated, matches,
}
use terraform_provider_nixos.Net.Sort.{
  sort_ip_address-first, sort_ip_address_two, weight_of-perm, climb,
}
use mathlib.Core.List.Perm
use terraform_provider_nixos.System.{done}
use terraform_provider_nixos.Settings.{items_of, Value, nil, str, list, item, none_left}
use terraform_provider_nixos.Provider.{Network, Provider}
use terraform_provider_nixos.Provider.Address.{address, to_ip_addrs}
use terraform_provider_nixos.Provider.Address.Laws.{address-climb}
use terraform_provider_nixos.Examples.{contains}

-- the networks of 10 to 19 and of 20 to 29
abbrev filters : List (Cidr ℕ ℕ)
filters = record { ip = 10; net = 1 } ∷ record { ip = 20; net = 2 } ∷ []

abbrev overlapping : List (Cidr ℕ ℕ)
overlapping = record { ip = 10; net = 1 } ∷ record { ip = 11; net = 1 } ∷ []

-- the network of 20 to 29 is preferred
abbrev priority : List (ℕ × ℤ)
priority = (1, pos 1) ∷ (2, pos 5) ∷ []

repeated_example : filter_ip_address contains filters (15 ∷ 35 ∷ 21 ∷ []) ≡ ok (15 ∷ 21 ∷ [])
unfolding repeated matches
repeated_example = filter_ip_address-repeated contains filters (15 ∷ 35 ∷ 21 ∷ []) refl

keep_example : filter_ip_address contains filters (15 ∷ 35 ∷ 21 ∷ []) ≡ ok (15 ∷ 21 ∷ [])
unfolding matches
keep_example =
    filter_ip_address-keep contains filters (15 ∷ 35 ∷ 21 ∷ []) refl
      (omega arith, (omega arith, (omega arith, tt)))

overlap_example : filter_ip_address contains overlapping (15 ∷ []) ≡ panic index_out_of_range
unfolding matches
overlap_example = filter_ip_address_overlap contains overlapping 15 (omega arith)

first_example :
    get_elem? (sort_ip_address contains (λ less s. s) priority (15 ∷ 25 ∷ 35 ∷ [])) 0 ≡ some 25
unfolding climb weight_of
first_example =
    sort_ip_address-first contains priority (λ less s. s) 15 (25 ∷ 35 ∷ []) refl (omega arith)

two_example : sort_ip_address contains (λ less s. s) priority (15 ∷ 25 ∷ []) ≡ 25 ∷ 15 ∷ []
unfolding weight_of
two_example = sort_ip_address_two contains priority (λ less s. s) 15 25 refl

weight_example :
    weight_of contains ((1, pos 1) ∷ (2, pos 5) ∷ []) 25
    ≡ weight_of contains ((2, pos 5) ∷ (1, pos 1) ∷ []) 25
weight_example =
    weight_of-perm contains priority ((1, pos 1) ∷ (2, pos 5) ∷ []) ((2, pos 5) ∷ (1, pos 1) ∷ [])
      25 (Perm.swap (2, pos 5) (1, pos 1) [])

abbrev network : Network
network = record {
  IP = ℕ;
  IPNet = ℕ;
  net_parse_cidr = λ s. done (1, 1);
  parse_ip = λ s. if s =ₛ "first" then 15 else 25;
  contains = contains;
  to_string = λ a. "::1";
  merge_blocks = λ less s. s;
}

abbrev provider : Provider network.IP network.IPNet
provider = record { box = λ key. nil; address_filter = filters; address_priority = priority }

abbrev addresses : Value
addresses = list (item (str "first") (item (str "second") none_left))

address_example : address network provider addresses ≡ ok 25
unfolding climb weight_of to_ip_addrs filter_ip_address items_of
address_example =
    address-climb network provider addresses (15 ∷ 25 ∷ []) 15 (25 ∷ []) refl refl refl
      (omega arith)
