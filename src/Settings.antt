-- ===== src/Settings.antt =====
-- Settings of provider/provider.go: the values of the SDK (`interface{}`), how a settings block is
-- found on a path (`resolveSettings`), and how the blocks of a provider and a resource are merged.
mod Values
pub mod Merge
pub mod Laws
pub mod Blocks
pub use Values.{Value, Items, Fields, IsFields}
pub use Values.{nil, bool, int, str, list, set, map, end, item, none_left, field}
unfoldable pub use Values.{get_field, put_field, items_of}
use terraform_provider_nixos.Base.{
  ℕ, String, Bool, true, false, List, [], ◌∷◌, ◌++◌, Option, none, some, Outcome, ok, panic,
  type_assertion, unhandled_type, ◌>>=◌, length,
}
use terraform_provider_nixos.Settings.Merge.{merge}

-- `ResourceBox`, by its method `Get`
abbrev pub ResourceBox : Type 0
ResourceBox = String → Value

-- `m[key]` of a map of values, nil where the key is missing
unfoldable pub value_of : String → Fields → Value
value_of key fs = elim (get_field key fs) [ none ↦ nil | some v ↦ v ]

-- the loop of `fold` over a set: the last block wins, and an empty set stays
fold_items : String → Items → Value → Outcome Value
unfolding value_of
fold_items key none_left value = ok value
fold_items key (item (map fs) rest) value = fold_items key rest (value_of key fs)
fold_items key (item v rest) value = panic (unhandled_type key)

-- `fold`
fold : ResourceBox → String → Value → Outcome Value
unfolding fold_items
fold r key nil = ok (r key)
fold r key (set items) = fold_items key items (set items)
fold r key v = panic (unhandled_type key)

-- a set at the end of the path becomes the list of its blocks
as_list : Value → Value
as_list (set items) = list items
as_list v = v

-- the loop over the path, which ends early at nil; the first key is looked up in the resource
walk : ResourceBox → List String → Value → Outcome Value
unfolding fold
walk r [] value = ok value
walk r (key ∷ path) value = do
  v ← fold r key value
  let rest = walk r path v
  elim v [ nil ↦ ok nil | _ ↦ rest ]

unfoldable pub resolve_settings : ResourceBox → List String → Outcome Value
unfolding walk as_list
resolve_settings r path = do v ← walk r path nil; ok (as_list v)

-- `x, _ := v.([]interface{})`
unfoldable pub blocks : Value → List Value
blocks (list items) = items_of items
blocks v = []

-- `v.(map[string]interface{})`
unfoldable pub as_map : Value → Outcome Fields
as_map (map fs) = ok fs
as_map v = panic type_assertion

first_block : List Value → Outcome Fields
unfolding as_map
first_block [] = ok end
first_block (v ∷ vs) = as_map v

-- the resource's block, if there is one, over the provider's
override : Fields → List Value → Outcome Fields
unfolding as_map
override fs [] = ok fs
override fs (v ∷ vs) = do own ← as_map v; merge fs own

-- `settings`: one block. `none` is a nil resource.
unfoldable pub settings : ResourceBox → Option ResourceBox → List String → Outcome Fields
unfolding first_block override
settings p none path = do v ← resolve_settings p path; first_block (blocks v)
settings p (some r) path = do
  v ← resolve_settings p path
  fs ← first_block (blocks v)
  u ← resolve_settings r path
  override fs (blocks u)

all_maps : List Value → Outcome (List Fields)
unfolding as_map
all_maps [] = ok []
all_maps (v ∷ vs) = do fs ← as_map v; rest ← all_maps vs; ok (fs ∷ rest)

-- the resource's blocks behind those of the provider, unless the provider has none
add_blocks : ResourceBox → List String → List Fields → Outcome (List Fields)
unfolding all_maps
add_blocks r path [] = ok []
add_blocks r path (fs ∷ rest) = do
  u ← resolve_settings r path
  own ← all_maps (blocks u)
  ok ((fs ∷ rest) ++ own)

-- `settingsSet`: all blocks
unfoldable pub settings_set : ResourceBox → Option ResourceBox → List String → Outcome (List Fields)
unfolding add_blocks all_maps
settings_set p none path = do v ← resolve_settings p path; all_maps (blocks v)
settings_set p (some r) path = do
  v ← resolve_settings p path
  fss ← all_maps (blocks v)
  add_blocks r path fss
