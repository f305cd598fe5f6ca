-- ===== src/Nfs4/Examples.antt =====
-- The theorems about src/cext/os/nfs4acl.c at concrete ACLs, and tests of the definitions.
use truenas_pyos.Prelude.{
  ◌∙◌, filter, drop, ◌+◌, ◌*◌, ℕ, ◌≡◌, ◌≢◌, ◌↔◌, ◌≤◌, refl, inl, inr, true, false, some, List, [],
  ◌∷◌, ◌++◌, map, length, All, arith, ◌==◌, if◌then◌else◌,
}
use truenas_pyos.Prelude.Int.{ℤ, pos, negsuc, minus_one}
use truenas_pyos.Prelude.Bytes.{IsBytes, be32, read_be32}
use truenas_pyos.Py.{int, ok, raise, value_error, out_of_bounds, data_truncated, int_enum_call}
use truenas_pyos.Py.Sort.{IsStableSort}
use truenas_pyos.Py.InsertionSort.{insertion_sort}
use truenas_pyos.Nfs4.Acl.{Nfs4Acl, from_aces, get_aces, get_acl_flags}
use truenas_pyos.Nfs4.Children.{inheritable}
use truenas_pyos.Nfs4.Entries.{entries, raw_at, whole_slots, word_at}
use truenas_pyos.Nfs4.Inherit.{ace_is_inheritable, generate_inherited_acl}
use truenas_pyos.Nfs4.Inherited.{AreInherited, inheritable-inherits, inherits}
use truenas_pyos.Nfs4.InheritLaws.{entries-generate_inherited_acl}
use truenas_pyos.Nfs4.InheritValid.{
  PropagatesOn, generate_inherited_acl_dir, generate_inherited_acl_file,
}
use truenas_pyos.Nfs4.RoundTrip.{get_aces-from_aces, item_key}
use truenas_pyos.Nfs4.Safety.{generate_inherited_acl-ne-out_of_bounds}
use truenas_pyos.Nfs4.Slot.{nfs4ace_write_raw, read_raw, who_words}
use truenas_pyos.Nfs4.Types.{Item, Nfs4Ace, ace}
use truenas_pyos.Nfs4.Valid.{
  Stat, check_ace, failed, nfs4acl_valid, note_ace, st_mode, stat_is_dir, target_is_dir,
}
use truenas_pyos.Nfs4.ValidLaws.{FitsTarget, IsAcceptable, nfs4acl_valid_iff}
use truenas_pyos.Nfs4.ValidLoop.{Any}
use truenas_pyos.Nfs4.Wire.{IsWire, raw_of}

-- EVERYONE@ may read, for files and directories below; uid 1000 may not, on this object.
abbrev everyone : Nfs4Ace
everyone = record {
  ace_type = int (pos 0);
  ace_flags = int (pos 0x3);
  access_mask = int (pos 0x1);
  who_type = int (pos 3);
  who_id = int minus_one;
}

abbrev denied_user : Nfs4Ace
denied_user = record {
  ace_type = int (pos 1);
  ace_flags = int (pos 0x0);
  access_mask = int (pos 0x1);
  who_type = int (pos 0);
  who_id = int (pos 1000);
}

everyone-IsWire : IsWire everyone
everyone-IsWire = record {
  t = 0;
  f = 3;
  m = 1;
  type_is = refl;
  flags_is = refl;
  mask_is = refl;
  type_fits = omega arith;
  flags_fits = omega arith;
  mask_fits = omega arith;
  principal = inr (3, refl, refl, omega arith, omega arith);
}

denied_user-IsWire : IsWire denied_user
denied_user-IsWire = record {
  t = 1;
  f = 0;
  m = 1;
  type_is = refl;
  flags_is = refl;
  mask_is = refl;
  type_fits = omega arith;
  flags_fits = omega arith;
  mask_fits = omega arith;
  principal = inl (1000, refl, refl, omega arith);
}

abbrev items : List Item
items = ace everyone ∷ ace denied_user ∷ []

get_aces-from_aces_example :
    (acl : Nfs4Acl) × (xs : List Nfs4Ace) × (from_aces insertion_sort items
        (some (int (pos 0x20000)))
      ≡ ok acl)
    × (get_aces acl ≡ ok xs)
    × (get_acl_flags acl ≡ ok (int (pos 0x20000)))
    × IsStableSort item_key items (map ace xs)
get_aces-from_aces_example =
    get_aces-from_aces insertion_sort items 0x20000 (everyone-IsWire, (denied_user-IsWire, tt))
      (omega arith) (omega arith)

-- The stored form of the two entries, in canonical order.
abbrev sorted_blob : List ℕ
sorted_blob =
    be32 0
    ++ (be32 2 ++ (nfs4ace_write_raw (raw_of denied_user) ++ nfs4ace_write_raw (raw_of everyone)))

two_entries : get_aces (record { data_bytes = sorted_blob }) ≡ ok (denied_user ∷ everyone ∷ [])
unfolding get_aces nfs4ace_write_raw be32 read_be32 int_enum_call who_words
two_entries = refl

-- A count of three with two slots is refused.
truncated :
    get_aces (record { data_bytes = be32 0 ++ (be32 3 ++ (be32 0 ++ (be32 0 ++ be32 0))) })
    ≡ raise (value_error data_truncated)
unfolding get_aces be32 read_be32 int_enum_call
truncated = refl

abbrev parent : Nfs4Acl
parent = record { data_bytes = sorted_blob }

sorted_blob-IsBytes : IsBytes sorted_blob
unfolding nfs4ace_write_raw be32 who_words
sorted_blob-IsBytes = omega arith

sorted_blob-size : 8 ≤ length sorted_blob
unfolding nfs4ace_write_raw be32 who_words
sorted_blob-size = omega arith

abbrev file_stat : ℤ → Stat
file_stat fd = elim fd [
  | pos n ↦ st_mode (if n == 4 then 0o100644 else 0o040755)
  | negsuc n ↦ failed 9
]

parent_dir : target_is_dir file_stat (pos 3) ≡ ok true
unfolding target_is_dir stat_is_dir
parent_dir = refl

child_file : target_is_dir file_stat (pos 4) ≡ ok false
unfolding target_is_dir stat_is_dir
child_file = refl

other_dir : target_is_dir file_stat (pos 5) ≡ ok true
unfolding target_is_dir stat_is_dir
other_dir = refl

parent_accepted : nfs4acl_valid file_stat (pos 3) parent.data_bytes ≡ ok tt
unfolding nfs4acl_valid stat_is_dir nfs4ace_write_raw be32 read_be32 read_raw who_words check_ace
    note_ace
parent_accepted = refl

parent_entries : entries parent.data_bytes ≡ raw_of denied_user ∷ raw_of everyone ∷ []
unfolding entries whole_slots raw_at word_at nfs4ace_write_raw be32 read_be32 who_words
parent_entries = refl

file_entries : inheritable false (entries parent.data_bytes) ≢ []
unfolding ace_is_inheritable who_words
file_entries e = cc (rw parent_entries at e)

file_inherits : filter (inherits false) (entries parent.data_bytes) ≢ []
file_inherits e = file_entries (inheritable-inherits false (entries parent.data_bytes) ∙ e)

entries-generate_inherited_acl_example :
    (made : Nfs4Acl) × (generate_inherited_acl parent false ≡ ok made)
    × AreInherited false
        (filter (inherits false) (entries parent.data_bytes))
        (entries made.data_bytes)
    × (word_at made.data_bytes ≡ 0)
    × (word_at (drop 4 made.data_bytes) ≡ length (entries made.data_bytes))
    × (length made.data_bytes ≡ 8 + 20 * length (entries made.data_bytes))
entries-generate_inherited_acl_example =
    entries-generate_inherited_acl parent false sorted_blob-IsBytes sorted_blob-size file_inherits

nfs4acl_valid_iff_example : (nfs4acl_valid file_stat (pos 3) parent.data_bytes ≡ ok tt) ↔ (
    All (IsAcceptable true) (entries parent.data_bytes)
    × FitsTarget true (entries parent.data_bytes))
nfs4acl_valid_iff_example =
    nfs4acl_valid_iff file_stat (pos 3) parent.data_bytes parent_dir sorted_blob-size

generate_inherited_acl_file_example :
    (made : Nfs4Acl) × (generate_inherited_acl parent false ≡ ok made)
    × (nfs4acl_valid file_stat (pos 4) made.data_bytes ≡ ok tt)
generate_inherited_acl_file_example =
    generate_inherited_acl_file parent file_stat (pos 3) (pos 4) sorted_blob-IsBytes
      sorted_blob-size parent_dir parent_accepted child_file file_entries

generate_inherited_acl_dir_example :
    (made : Nfs4Acl) × (generate_inherited_acl parent true ≡ ok made)
    × ((nfs4acl_valid file_stat (pos 5) made.data_bytes ≡ ok tt)
        ↔ Any PropagatesOn (entries parent.data_bytes))
generate_inherited_acl_dir_example =
    generate_inherited_acl_dir parent file_stat (pos 3) (pos 5) sorted_blob-IsBytes sorted_blob-size
      parent_dir parent_accepted other_dir

generate_inherited_acl-ne-out_of_bounds_example : generate_inherited_acl parent true ≢ out_of_bounds
generate_inherited_acl-ne-out_of_bounds_example =
    generate_inherited_acl-ne-out_of_bounds parent true
