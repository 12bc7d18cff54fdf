-- ===== src/Settings/Values.antt =====
-- The values of the SDK that the provider takes apart: `interface{}` with the types that occur.
use terraform_provider_nixos.Base.{
  String, Bool, List, [], ◌∷◌, Option, none, some, ◌≡◌, ◌=ₛ◌, if◌then◌else◌,
}
use terraform_provider_nixos.Base.Int.{ℤ}

mutual
  pub data Value : Type 0 where
    nil : Value
    bool : Bool → Value
    int : ℤ → Value
    str : String → Value
    list : Items → Value
    -- `*schema.Set`
    set : Items → Value
    -- `map[string]interface{}`
    map : Fields → Value

  pub data Items : Type 0 where
    none_left : Items
    item : Value → Items → Items

  -- a map in the order in which a `range` visits it
  pub data Fields : Type 0 where
    end : Fields
    field : String → Value → Fields → Fields

unfoldable pub get_field : String → Fields → Option Value
get_field k end = none
get_field k (field j v fs) = if j =ₛ k then some v else get_field k fs

unfoldable pub put_field : String → Value → Fields → Fields
put_field k v end = field k v end
put_field k v (field j w fs) = if j =ₛ k then field j v fs else field j w (put_field k v fs)

unfoldable pub items_of : Items → List Value
items_of none_left = []
items_of (item v rest) = v ∷ items_of rest

-- No key occurs twice.
abbrev pub IsFields : Fields → Type 0
IsFields end = Unit
IsFields (field k v fs) = (get_field k fs ≡ none) × IsFields fs
