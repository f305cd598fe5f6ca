-- ===== src/Posix/Examples.antt =====
-- The theorems about src/cext/os/posixacl.c at concrete ACLs, and tests of the definitions.
use truenas_pyos.Prelude.{
  ℕ, ◌≡◌, ◌≢◌, ◌↔◌, ◌⊎◌, ◌<◌, ◌≤◌, refl, inl, inr, Bool, true, false, none, some, List, [], ◌∷◌,
  ◌++◌, map, length, All, arith, ◌==◌, if◌then◌else◌,
}
use truenas_pyos.Prelude.Int.{ℤ, pos, negsuc, minus_one}
use truenas_pyos.Prelude.Bytes.{le16, le32, read_le16, read_le32}
use truenas_pyos.Py.{int, ok, raise, value_error, mask_required, ◌>>=◌}
use truenas_pyos.Py.Sort.{IsStableSort}
use truenas_pyos.Py.InsertionSort.{insertion_sort}
use truenas_pyos.Nfs4.Valid.{Stat, failed, st_mode, stat_is_dir}
use truenas_pyos.Posix.Types.{PosixAce, Item, ace}
use truenas_pyos.Posix.Acl.{PosixAcl, from_aces, get_aces, get_default_aces, generate_inherited_acl}
use truenas_pyos.Posix.Valid.{validate_posix_blob, posixacl_valid}
use truenas_pyos.Posix.EntryTrip.{IsStorable}
use truenas_pyos.Posix.RoundTrip.{item_key, IsStorableItem}
use truenas_pyos.Posix.FromAces.{access_of, default_of, read-from_aces}
use truenas_pyos.Posix.Accepted.{IsValidBlob, IsDirTarget, IsValidDefault, posixacl_valid_iff}
use truenas_pyos.Posix.InheritLaws.{as_access, generate_inherited_acl-posixacl_valid}

abbrev entry : ℕ → ℕ → Bool → PosixAce
entry tag perms is_default_entry = record {
  tag = int (pos tag);
  perms = int (pos perms);
  id = int minus_one;
  default_ = is_default_entry;
}

abbrev named_user : Bool → PosixAce
named_user is_default_entry = record {
  tag = int (pos 0x02);
  perms = int (pos 4);
  id = int (pos 1000);
  default_ = is_default_entry;
}

entry-IsStorable :
    (tag perms : ℕ) (b : Bool)
    → ((tag ≡ 0x01) ⊎ (tag ≡ 0x04) ⊎ (tag ≡ 0x10) ⊎ (tag ≡ 0x20))
    → perms < 8
    → IsStorable (entry tag perms b)
entry-IsStorable tag perms b special fits = record {
  m = perms;
  perms_is = refl;
  perms_fit = omega arith;
  tagged = inl (tag, refl, refl, special);
}

named_user-IsStorable : (b : Bool) → IsStorable (named_user b)
named_user-IsStorable b = record {
  m = 4;
  perms_is = refl;
  perms_fit = omega arith;
  tagged = inr (2, 1000, refl, refl, inl refl, omega arith);
}

-- rwxr-x---, with a default entry between them.
abbrev items : List Item
items =
    ace (entry 0x20 0 false)
    ∷ ace (named_user true)
    ∷ ace (entry 0x01 7 false)
    ∷ ace (entry 0x04 5 false)
    ∷ []

items-IsStorableItem : All IsStorableItem items
items-IsStorableItem = (
  entry-IsStorable 0x20 0 false (ground arith) (omega arith),
  (
    named_user-IsStorable true,
    (
      entry-IsStorable 0x01 7 false (ground arith) (omega arith),
      (entry-IsStorable 0x04 5 false (ground arith) (omega arith), tt),
    ),
  ),
)

read-from_aces_example :
    (acl : PosixAcl) × (xs : List PosixAce) × (ys : List PosixAce) × (from_aces insertion_sort items
      ≡ ok acl)
    × (get_aces acl ≡ ok xs)
    × (get_default_aces acl ≡ ok ys)
    × IsStableSort item_key (access_of items) (map ace xs)
    × IsStableSort item_key (default_of items) (map ace ys)
read-from_aces_example = read-from_aces insertion_sort items items-IsStorableItem

abbrev slot : ℕ → ℕ → ℕ → List ℕ
slot tag perms id = le16 tag ++ (le16 perms ++ le32 id)

-- rwxr-x--- as an access blob, and the same with a named user and a mask as a default blob.
abbrev access_blob : List ℕ
access_blob =
    le32 2 ++ (slot 0x01 7 0xffff_ffff ++ (slot 0x04 5 0xffff_ffff ++ slot 0x20 0 0xffff_ffff))

abbrev with_mask : List ℕ
with_mask =
    le32 2
    ++ (slot 0x01 7 0xffff_ffff
        ++ (slot 0x02 4 1000
            ++ (slot 0x04 5 0xffff_ffff ++ (slot 0x10 5 0xffff_ffff ++ slot 0x20 0 0xffff_ffff))))

-- Descriptor 4 is a file, every other one a directory.
abbrev stat_of : ℤ → Stat
stat_of fd = elim fd [
  | pos n ↦ st_mode (if n == 4 then 0o100644 else 0o040755)
  | negsuc n ↦ failed 9
]

accepted : posixacl_valid stat_of (pos 3) access_blob (some with_mask) ≡ ok tt
unfolding posixacl_valid stat_is_dir le16 le32 read_le16 read_le32
accepted = refl

-- A named user without a mask is refused.
no_mask :
    validate_posix_blob (access_blob ++ slot 0x02 4 1000) "access"
    ≡ raise (value_error (mask_required "access"))
unfolding validate_posix_blob le16 le32 read_le16 read_le32
no_mask = refl

access_size : 4 ≤ length access_blob
unfolding le16 le32
access_size = omega arith

posixacl_valid_iff_example :
    (posixacl_valid stat_of (pos 3) access_blob (some with_mask) ≡ ok tt)
    ↔ (IsValidBlob access_blob × IsValidDefault stat_of (pos 3) (some with_mask))
posixacl_valid_iff_example = posixacl_valid_iff stat_of (pos 3) access_blob (some with_mask)

abbrev parent : PosixAcl
parent = record { access_data = access_blob; default_data = some with_mask; synthesized = false }

parent_has_default : parent.default_data ≢ none
parent_has_default p = cc

child_dir : true ≡ true → IsDirTarget stat_of (pos 5)
child_dir p = inr (0o040755, refl, refl)

generate_inherited_acl-posixacl_valid_example :
    (made : PosixAcl) × (generate_inherited_acl parent true ≡ ok made)
    × (get_aces made ≡ (get_default_aces parent >>= λ xs. ok (map as_access xs)))
    × (get_default_aces made ≡ get_default_aces parent)
    × (posixacl_valid stat_of (pos 5) made.access_data made.default_data ≡ ok tt)
generate_inherited_acl-posixacl_valid_example =
    generate_inherited_acl-posixacl_valid parent true stat_of (pos 3) (pos 5) accepted
      parent_has_default child_dir
