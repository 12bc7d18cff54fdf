-- ===== src/Settings/Blocks.antt =====
-- The settings of provider/provider.go where the provider has one block, as it has by default, and
-- the resource has none.
use terraform_provider_nixos.Base.{◌≡◌, refl, String, List, [], ◌∷◌, some, ok, arith}
use terraform_provider_nixos.Settings.{
  ResourceBox, Items, Fields, list, set, map, item, none_left, fold, fold_items, walk, as_list,
  resolve_settings, blocks, items_of, as_map, first_block, override, settings, all_maps, add_blocks,
  settings_set, value_of,
}

resolve-first :
    (d : ResourceBox) (k : String) (items : Items)
    → d k ≡ set items
    → resolve_settings d (k ∷ []) ≡ ok (list items)
unfolding resolve_settings walk fold as_list
resolve-first d k items h = ground (arith, h)

-- a key of the one block that is a list
resolve-inner :
    (d : ResourceBox) (k j : String) (fs : Fields) (items : Items)
    → d k ≡ set (item (map fs) none_left)
    → value_of j fs ≡ list items
    → resolve_settings d (k ∷ j ∷ []) ≡ ok (list items)
unfolding resolve_settings walk fold fold_items as_list
resolve-inner d k j fs items h g = ground (arith, h, g)

resolve-none :
    (d : ResourceBox) (k j : String)
    → d k ≡ set none_left
    → resolve_settings d (k ∷ j ∷ []) ≡ ok (list none_left)
unfolding resolve_settings walk fold fold_items as_list
resolve-none d k j h = ground (arith, h)

module _ (p r : ResourceBox) (path : List String) (fs : Fields) where
  settings-block :
      resolve_settings p path ≡ ok (list (item (map fs) none_left))
      → resolve_settings r path ≡ ok (list none_left)
      → settings p (some r) path ≡ ok fs
  unfolding settings blocks items_of as_map first_block override
  settings-block h e = rw h (rw e refl)

  settings_set-block :
      resolve_settings p path ≡ ok (list (item (map fs) none_left))
      → resolve_settings r path ≡ ok (list none_left)
      → settings_set p (some r) path ≡ ok (fs ∷ [])
  unfolding settings_set blocks items_of as_map all_maps add_blocks
  settings_set-block h e = rw h (rw e refl)

module _ (p r : ResourceBox) (k : String) (fs : Fields) where
  pub settings-one :
      p k ≡ set (item (map fs) none_left)
      → r k ≡ set none_left
      → settings p (some r) (k ∷ []) ≡ ok fs
  settings-one h e = settings-block p r _ fs (resolve-first p k _ h) (resolve-first r k _ e)

  -- a block in that block, which is a list there
  pub settings-nested :
      (j : String) (gs : Fields)
      → p k ≡ set (item (map fs) none_left)
      → value_of j fs ≡ list (item (map gs) none_left)
      → r k ≡ set none_left
      → settings p (some r) (k ∷ j ∷ []) ≡ ok gs
  settings-nested j gs h g e =
      settings-block p r _ gs (resolve-inner p k j fs _ h g) (resolve-none r k j e)

  pub settings_set-one :
      p k ≡ set (item (map fs) none_left)
      → r k ≡ set none_left
      → settings_set p (some r) (k ∷ []) ≡ ok (fs ∷ [])
  settings_set-one h e = settings_set-block p r _ fs (resolve-first p k _ h) (resolve-first r k _ e)
