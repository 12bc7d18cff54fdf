-- ===== src/Provider.antt =====
-- `Provider` of provider/provider.go: its settings, and the ssh, nix and secrets objects that are made
-- from them for a resource.
pub mod Address
pub mod Configure
pub mod Objects
pub mod Actions
use terraform_provider_nixos.Base.{
  ℕ, String, Bool, true, false, List, [], ◌∷◌, ◌++◌, Option, none, some, Outcome, ok, err, panic,
  Error, Panic, type_assertion, ◌>>=◌,
}
use terraform_provider_nixos.Base.Int.{ℤ}
use terraform_provider_nixos.System.{Attempt}
use terraform_provider_nixos.Settings.{
  ResourceBox, Value, Fields, nil, bool, int, str, list, set, map, end, field, items_of, settings,
  settings_set,
}
use terraform_provider_nixos.Net.{Cidr, parse_cidr}

-- Package `net` and the merging of `sort.SliceStable`, as far as the provider uses them.
pub record Network : Type 1 where
  pub IP : Type 0
  pub IPNet : Type 0
  -- `net.ParseCIDR`
  pub net_parse_cidr : String → Attempt (IP × IPNet)
  -- `net.ParseIP`, which is a nil address for a text that is none
  pub parse_ip : String → IP
  pub contains : IPNet → IP → Bool
  -- `IP.String()`
  pub to_string : IP → String
  pub merge_blocks : (ℕ → ℕ → Bool) → List IP → List IP

pub record Provider (IP IPNet : Type 0) : Type 0 where
  pub box : ResourceBox
  pub address_filter : List (Cidr IP IPNet)
  pub address_priority : List (IPNet × ℤ)

-- `v.(string)`, `v.(int)` and `v.([]interface{})`
abbrev pub as_string : Value → Outcome String
as_string (str s) = ok s
as_string v = panic type_assertion

abbrev pub as_int : Value → Outcome ℤ
as_int (int n) = ok n
as_int v = panic type_assertion

abbrev pub as_slice : Value → Outcome (List Value)
as_slice (list items) = ok (items_of items)
as_slice v = panic type_assertion

-- `x, _ := v.(string)`
abbrev pub string_or_empty : Value → String
string_or_empty (str s) = s
string_or_empty v = ""

module _ (net : Network) where
  open net use {IP, IPNet}

  -- the loop of `initAddressFilter`
  unfoldable pub parse_filters : List Value → Outcome (List (Cidr IP IPNet))
  parse_filters [] = ok []
  parse_filters (v ∷ vs) = do
    s ← as_string v
    cidr ← parse_cidr net.net_parse_cidr s
    rest ← parse_filters vs
    ok (cidr ∷ rest)

  unfoldable pub init_address_filter : ResourceBox → Outcome (List (Cidr IP IPNet))
  unfolding parse_filters
  init_address_filter box = do vs ← as_slice (box "address_filter"); parse_filters vs

  -- the loop of `initAddressPriority`; each parsed network is a new key of the map
  unfoldable pub parse_priorities : Fields → Outcome (List (IPNet × ℤ))
  parse_priorities end = ok []
  parse_priorities (field s v fs) = do
    cidr ← parse_cidr net.net_parse_cidr s
    weight ← as_int v
    rest ← parse_priorities fs
    ok ((cidr.net, weight) ∷ rest)

  priorities_of : Value → Outcome (List (IPNet × ℤ))
  unfolding parse_priorities
  priorities_of (map fs) = parse_priorities fs
  priorities_of v = panic type_assertion

  unfoldable pub init_address_priority : ResourceBox → Outcome (List (IPNet × ℤ))
  unfolding priorities_of
  init_address_priority box = priorities_of (box "address_priority")

  -- `init`: the initializers in their order, what they set in the provider
  unfoldable pub init : ResourceBox → Outcome (List (Cidr IP IPNet) × List (IPNet × ℤ))
  unfolding init_address_filter init_address_priority
  init box = do
    filter ← init_address_filter box
    priority ← init_address_priority box
    ok (filter, priority)

  -- `NewProvider`
  unfoldable pub new_provider : ResourceBox → Outcome (Provider IP IPNet)
  unfolding init
  new_provider box = do
    r ← init box
    ok (record { box = box; address_filter = r.0; address_priority = r.1 })

-- `NixSettings`, `SshSettings`, `BastionSettings`, `SecretsSettings`, `SecretsSet`
module _ {IP IPNet : Type 0} (p : Provider IP IPNet) (resource : Option ResourceBox) where
  abbrev pub nix_settings : Outcome Fields
  nix_settings = settings p.box resource ("nix" ∷ [])

  abbrev pub ssh_settings : Outcome Fields
  ssh_settings = settings p.box resource ("ssh" ∷ [])

  abbrev pub bastion_settings : Outcome Fields
  bastion_settings = settings p.box resource ("bastion" ∷ [])

  abbrev pub secrets_settings : Outcome Fields
  secrets_settings = settings p.box resource ("secrets" ∷ [])

  abbrev pub secrets_set : Outcome (List Fields)
  secrets_set = settings_set p.box resource ("secret" ∷ [])
