-- ===== src/Provider/Configure.antt =====
-- `New` of provider/schema.go: the resource data that `NewProvider` reads, and the diagnostics of
-- `ConfigureContextFunc`. The goroutine that it starts calls `Provider.Close`, which does nothing.
pub mod Defaults
use terraform_provider_nixos.Base.{
  ◌≡◌, String, List, [], ◌∷◌, Option, none, some, Outcome, ok, err, panic, Error, ◌>>=◌,
}
use terraform_provider_nixos.Settings.{ResourceBox, Value, Items}
use terraform_provider_nixos.Schema.{get}
use terraform_provider_nixos.Schema.Tables.{provider_schema_map}
use terraform_provider_nixos.Provider.{Network, Provider, new_provider}

-- `ResourceData{ResourceBox: d, Schema: p.Schema}`, by its method `Get`
unfoldable pub provider_data : (Items → Items) → ResourceBox → String → Outcome Value
provider_data new_set box key = do m ← provider_schema_map; get new_set m box key

-- The box answers as this resource data does, which therefore does not panic.
abbrev pub IsDataOf : (Items → Items) → ResourceBox → ResourceBox → Type 0
IsDataOf new_set box d = (key : String) → provider_data new_set box key ≡ ok (d key)

module _ (net : Network) where
  open net use {IP, IPNet}

  configured : Outcome (Provider IP IPNet) → Outcome (Option (Provider IP IPNet) × List Error)
  configured (ok p) = ok (some p, [])
  configured (err e) = ok (none, e ∷ [])
  configured (panic p) = panic p

  -- `ConfigureContextFunc`, with the resource data as a box
  unfoldable pub configure : ResourceBox → Outcome (Option (Provider IP IPNet) × List Error)
  unfolding configured
  configure d = configured (new_provider net d)
