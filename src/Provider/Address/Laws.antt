-- ===== src/Provider/Address/Laws.antt =====
-- Which address of a server the provider chooses.
use terraform_provider_nixos.Base.{
  ◌≤◌, ◌≡◌, List, [], ◌∷◌, some, ok, false, length, is_empty, get_elem?,
}
use terraform_provider_nixos.Settings.{Value, nil, bool, int, str, list, set, map}
use terraform_provider_nixos.Net.{filter_ip_address, weight_of}
use terraform_provider_nixos.Net.Sort.{climb, sort_ip_address-first}
use terraform_provider_nixos.Provider.{Network, Provider}
use terraform_provider_nixos.Provider.Address.{to_ip_addrs, address, address_of, choose, first}

module _ (net : Network) where
  open net use {IP, IPNet}

  first-get : (ips : List IP) (ip : IP) → get_elem? ips 0 ≡ some ip → first net ips ≡ ok ip
  unfolding first
  first-get [] ip h = cc
  first-get (x ∷ ips) ip h = cc

  choose-climb :
      (p : Provider IP IPNet) (x : IP) (xs : List IP)
      → is_empty p.address_priority ≡ false
      → length (x ∷ xs) ≤ 20
      → choose net p (x ∷ xs) ≡ ok (climb (weight_of net.contains p.address_priority) x xs)
  unfolding choose
  choose-climb p x xs h l =
      first-get _ _
        (sort_ip_address-first net.contains p.address_priority net.merge_blocks x xs h l)

  -- If the list of addresses can be read and the filters leave at most 20 addresses and at least one,
  -- the provider with priorities chooses among these the one where the weights stop rising.
  pub address-climb :
      (p : Provider IP IPNet) (v : Value) (ips : List IP) (x : IP) (xs : List IP)
      → to_ip_addrs net v ≡ ok ips
      → filter_ip_address net.contains p.address_filter ips ≡ ok (x ∷ xs)
      → is_empty p.address_priority ≡ false
      → length (x ∷ xs) ≤ 20
      → address net p v ≡ ok (climb (weight_of net.contains p.address_priority) x xs)
  unfolding address address_of to_ip_addrs
  address-climb p (list items) ips x xs e f h l = rw (e, f) (choose-climb p x xs h l)
  address-climb p nil ips x xs e f h l = cc
  address-climb p (bool b) ips x xs e f h l = cc
  address-climb p (int n) ips x xs e f h l = cc
  address-climb p (str s) ips x xs e f h l = cc
  address-climb p (set items) ips x xs e f h l = cc
  address-climb p (map fs) ips x xs e f h l = cc
