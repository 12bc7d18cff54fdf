-- ===== src/Settings/Merge.antt =====
-- `merge` of provider/provider.go. The first map goes into an empty one, where no key is present
-- yet, so that its loop only writes.
use terraform_provider_nixos.Base.{Option, none, some, Outcome, ok, panic, type_assertion, ◌>>=◌}
use terraform_provider_nixos.Settings.Values.{Value, Fields, map, end, field, get_field, put_field}

-- the loop over the first map
unfoldable pub copy_fields : Fields → Fields → Fields
copy_fields r end = r
copy_fields r (field k v fs) = copy_fields (put_field k v r) fs

unfoldable mutual
  -- the loop over a later map
  pub merge_loop : Fields → Fields → Outcome Fields
  merge_loop r end = ok r
  merge_loop r (field k v fs) = do
    v' ← merge_value (get_field k r) v
    merge_loop (put_field k v' r) fs

  -- what is written under a key: maps are merged with what is there, other values replace it
  pub merge_value : Option Value → Value → Outcome Value
  merge_value none v = ok v
  merge_value (some current) (map fs) = elim current [
    | map cs ↦ do m ← merge_loop (copy_fields end cs) fs; ok (map m)
    | _ ↦ panic type_assertion
  ]
  merge_value (some current) v = ok v

unfoldable pub merge : Fields → Fields → Outcome Fields
unfolding copy_fields
merge a b = merge_loop (copy_fields end a) b
