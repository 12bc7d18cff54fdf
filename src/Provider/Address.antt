-- ===== src/Provider/Address.antt =====
-- `Address` of provider/provider.go: the address at which a server is reached.
pub mod Laws
use terraform_provider_nixos.Base.{
  List, [], ◌∷◌, Outcome, ok, err, panic, errorf, ◌>>=◌, index_out_of_range,
}
use terraform_provider_nixos.Settings.{Value, nil}
use terraform_provider_nixos.Net.{filter_ip_address, sort_ip_address}
use terraform_provider_nixos.Provider.{Network, Provider, as_string, as_slice}

module _ (net : Network) where
  open net use {IP, IPNet}

  -- the loop of `ToIPAddrs`
  unfoldable pub parse_addrs : List Value → Outcome (List IP)
  parse_addrs [] = ok []
  parse_addrs (v ∷ vs) = do s ← as_string v; rest ← parse_addrs vs; ok (net.parse_ip s ∷ rest)

  unfoldable pub to_ip_addrs : Value → Outcome (List IP)
  unfolding parse_addrs
  to_ip_addrs v = do vs ← as_slice v; parse_addrs vs

  -- `addrs[0]`
  first : List IP → Outcome IP
  first [] = panic index_out_of_range
  first (ip ∷ ips) = ok ip

  -- the first of the addresses that are left, by priority
  choose : Provider IP IPNet → List IP → Outcome IP
  unfolding first
  choose p [] = err (errorf "no address from list %q matched with current address filters" [])
  choose p (ip ∷ ips) =
      first (sort_ip_address net.contains net.merge_blocks p.address_priority (ip ∷ ips))

  -- an address list that is not nil
  address_of : Provider IP IPNet → Value → Outcome IP
  unfolding choose to_ip_addrs
  address_of p v = do
    ips ← to_ip_addrs v
    addrs ← filter_ip_address net.contains p.address_filter ips
    choose p addrs

  unfoldable pub address : Provider IP IPNet → Value → Outcome IP
  unfolding address_of
  address p nil = err (errorf "rawAddrs should not be nil" [])
  address p v = address_of p v
