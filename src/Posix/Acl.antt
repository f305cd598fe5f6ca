-- ===== src/Posix/Acl.antt =====
-- src/cext/os/posixacl.c: `POSIXACL`, its constructors, its readers and the ACL of a new child.
use truenas_pyos.Prelude.{
  ℕ, zero, suc, ◌+◌, ◌-◌, ◌*◌, ◌/◌, Bool, true, false, ◌&&◌, Option, none, some, List, [], ◌∷◌,
  ◌++◌, drop, length, ltb, ◌==◌, if◌then◌else◌,
}
use truenas_pyos.Prelude.Int.{pos, minus_one, u16_of, u32_of}
use truenas_pyos.Prelude.Bytes.{le16, le32, read_le16, read_le32}
use truenas_pyos.Py.{
  int, Result, ok, raise, value_error, type_error, data_too_short, trivial_acl, no_default_acl,
  as_long, int_enum_call, int_flag_call, load, raise_if, ◌>>=◌, ◌>>◌,
}
use truenas_pyos.Py.Sort.{ListSort}
use truenas_pyos.Posix.Types.{
  posix_hdr_sz, posix_ace_sz, posix_acl_version, posix_special_id, posix_tag_table, is_special_tag,
  PosixAce, Item, posix_ace_lt, ace, other,
}

-- POSIXACL_t: the two blobs, the second absent as `None`, and whether the first came from mode bits.
pub record PosixAcl : Type 0 where
  pub access_data : List ℕ
  pub default_data : Option (List ℕ)
  pub synthesized : Bool

-- POSIXACL_init on a fresh object.
unfoldable pub posix_acl_init : List ℕ → Option (List ℕ) → PosixAcl
posix_acl_init access_data default_data = record {
  access_data = access_data;
  default_data = default_data;
  synthesized = false;
}

-- The type check of the loops of encode_posix_aces and POSIXACL_from_aces.
unfoldable pub checked_ace : Item → Result PosixAce
checked_ace (ace a) = ok a
checked_ace other = raise type_error

-- The 8 bytes of one entry in encode_posix_aces. The last conversion that fails leaves its exception
-- set, so they are bound from the last to the first.
unfoldable pub encode_posix_ace : PosixAce → Result (List ℕ)
unfolding as_long is_special_tag
encode_posix_ace a = do
  id_v ← as_long a.id
  perm_v ← as_long a.perms
  tag_v ← as_long a.tag
  let xid = if is_special_tag tag_v then posix_special_id else u32_of id_v
  ok (le16 (u16_of tag_v) ++ (le16 (u16_of perm_v) ++ le32 xid))

-- The loop of encode_posix_aces.
unfoldable pub encode_loop : List Item → Result (List ℕ)
unfolding checked_ace encode_posix_ace
encode_loop [] = ok []
encode_loop (item ∷ items) = do
  a ← checked_ace item
  bytes ← encode_posix_ace a
  rest ← encode_loop items
  ok (bytes ++ rest)

-- encode_posix_aces
unfoldable pub encode_posix_aces : List Item → Result (List ℕ)
unfolding encode_loop
encode_posix_aces items = do body ← encode_loop items; ok (le32 posix_acl_version ++ body)

-- The loop of POSIXACL_from_aces that sorts entries into the access and the default list.
pub record Split : Type 0 where
  pub access_list : List Item
  pub default_list : List Item

unfoldable pub split_aces : List Item → Result Split
unfolding checked_ace
split_aces [] = ok (record { access_list = []; default_list = [] })
split_aces (item ∷ items) = do
  a ← checked_ace item
  rest ← split_aces items
  ok (
      if a.default_
      then record rest { default_list = item ∷ rest.default_list }
      else record rest { access_list = item ∷ rest.access_list })

-- The default blob of POSIXACL_from_aces: `None` without a default entry.
unfoldable pub default_bytes_or_none : List Item → Result (Option (List ℕ))
unfolding encode_posix_aces
default_bytes_or_none [] = ok none
default_bytes_or_none (item ∷ items) = encode_posix_aces (item ∷ items) >>= λ bytes. ok (some bytes)

-- POSIXACL_from_aces
unfoldable pub from_aces : ListSort Item → List Item → Result PosixAcl
unfolding posix_ace_lt split_aces encode_posix_aces default_bytes_or_none posix_acl_init
from_aces list_sort aces = do
  lists ← split_aces aces
  access_seq ← list_sort.sort posix_ace_lt lists.access_list
  default_seq ← list_sort.sort posix_ace_lt lists.default_list
  access_bytes ← encode_posix_aces access_seq
  default_bytes ← default_bytes_or_none default_seq
  ok (posix_acl_init access_bytes default_bytes)

-- The entry at `p` in parse_posix_aces. Both enum classes are called before the results are tested.
unfoldable pub parse_posix_ace : List ℕ → Bool → Result PosixAce
unfolding int_enum_call int_flag_call
parse_posix_ace p is_default = do
  tag_raw ← load (read_le16 p)
  perm_raw ← load (read_le16 (drop 2 p))
  xid ← load (read_le32 (drop 4 p))
  let id_v = if xid == posix_special_id then minus_one else pos xid
  perms ← int_flag_call perm_raw
  tag ← int_enum_call "POSIXTag" posix_tag_table tag_raw
  ok (record { tag = tag; perms = perms; id = int id_v; default_ = is_default })

abbrev pub entry_at : List ℕ → ℕ → List ℕ
entry_at buf i = drop (posix_hdr_sz + i * posix_ace_sz) buf

-- The loop of parse_posix_aces at index i, with `left` rounds left.
unfoldable pub parse_loop : ℕ → ℕ → List ℕ → Bool → Result (List PosixAce)
unfolding parse_posix_ace
parse_loop zero i buf is_default = ok []
parse_loop (suc left) i buf is_default = do
  a ← parse_posix_ace (entry_at buf i) is_default
  rest ← parse_loop left (i + 1) buf is_default
  ok (a ∷ rest)

-- parse_posix_aces
unfoldable pub parse_posix_aces : List ℕ → Bool → Result (List PosixAce)
unfolding parse_loop
parse_posix_aces buf is_default =
    let bufsz = length buf in
    let parsed : Result (List PosixAce) = do
      raise_if (ltb bufsz posix_hdr_sz) (value_error data_too_short)
      parse_loop ((bufsz - posix_hdr_sz) / posix_ace_sz) 0 buf is_default
    in if bufsz == 0 then ok [] else parsed

-- POSIXACL_get_aces
unfoldable pub get_aces : PosixAcl → Result (List PosixAce)
unfolding parse_posix_aces
get_aces acl = parse_posix_aces acl.access_data false

-- POSIXACL_get_default_aces
unfoldable pub get_default_aces : PosixAcl → Result (List PosixAce)
unfolding parse_posix_aces
get_default_aces acl = elim acl.default_data [
  | none ↦ ok []
  | some bytes ↦ parse_posix_aces bytes true
]

-- POSIXACL_get_trivial
unfoldable pub get_trivial : PosixAcl → Bool
get_trivial acl = acl.synthesized && elim acl.default_data [ none ↦ true | some bytes ↦ false ]

-- POSIXACL_generate_inherited_acl
unfoldable pub generate_inherited_acl : PosixAcl → Bool → Result PosixAcl
unfolding posix_acl_init
generate_inherited_acl acl is_dir = elim acl.default_data [
  | none ↦
      if length acl.access_data == 0
      then raise (value_error trivial_acl)
      else raise (value_error no_default_acl)
  | some bytes ↦ ok (posix_acl_init bytes (if is_dir then some bytes else none))
]

-- POSIXACL_from_xattr_bytes
unfoldable pub from_xattr_bytes : List ℕ → Option (List ℕ) → Bool → PosixAcl
unfolding posix_acl_init
from_xattr_bytes access_data default_data access_synthesized =
    record (posix_acl_init access_data default_data) { synthesized = access_synthesized }
