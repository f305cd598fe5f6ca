-- ===== src/Posix/EntryTrip.antt =====
-- src/cext/os/posixacl.c: one entry written and read again.
use truenas_pyos.Prelude.{
  ℕ, ◌^◌, ◌<◌, ◌≡◌, ◌⊎◌, ◌∙◌, Bool, some, List, ◌++◌, drop, ◌==◌, arith, if◌then◌else◌,
}
use truenas_pyos.Prelude.Int.{ℤ, pos, minus_one, u16_of, u32_of}
use truenas_pyos.Prelude.Bytes.{le16, le32, read_le16, read_le32, read_le16-le16, read_le32-le32}
use truenas_pyos.Py.{PyValue, py_none, int, object, Result, ok, has_member, int_enum_call, ◌>>=◌}
use truenas_pyos.Posix.Types.{posix_special_id, posix_tag_table, is_special_tag, PosixAce}
use truenas_pyos.Posix.Acl.{encode_posix_ace, parse_posix_ace}

-- The tag and the id of an entry: a special tag with id -1, or a user or group with its number.
abbrev pub IsTagged : PyValue → PyValue → Type 0
IsTagged tag id =
    ((k : ℕ) × (tag ≡ int (pos k))
      × (id ≡ int minus_one)
      × ((k ≡ 0x01) ⊎ (k ≡ 0x04) ⊎ (k ≡ 0x10) ⊎ (k ≡ 0x20)))
    ⊎ ((k : ℕ) × (n : ℕ) × (tag ≡ int (pos k))
        × (id ≡ int (pos n))
        × ((k ≡ 0x02) ⊎ (k ≡ 0x08))
        × (n < 0xffff_ffff))

-- An entry with a tag, an id and permissions that the xattr format can hold.
pub record IsStorable (a : PosixAce) : Type 0 where
  pub m : ℕ
  pub perms_is : a.perms ≡ int (pos m)
  pub perms_fit : m < 2 ^ 16
  pub tagged : IsTagged a.tag a.id

abbrev pub int_value : PyValue → ℤ
int_value (int z) = z
int_value py_none = pos 0
int_value object = pos 0

-- The 8 bytes of an entry.
abbrev pub bytes_of : PosixAce → List ℕ
bytes_of a =
    le16 (u16_of (int_value a.tag))
    ++ (le16 (u16_of (int_value a.perms))
        ++ le32 (
            if is_special_tag (int_value a.tag) then posix_special_id else u32_of (int_value a.id)))

pub encode-bytes_of : (a : PosixAce) → IsStorable a → encode_posix_ace a ≡ ok (bytes_of a)
unfolding encode_posix_ace
encode-bytes_of a h = ground arith

-- The reader on three words that fit their widths.
abbrev entry_of : ℕ → ℕ → ℕ → Bool → Result PosixAce
entry_of t m x is_default = do
  tag ← int_enum_call "POSIXTag" posix_tag_table t
  ok (record {
    tag = tag;
    perms = int (pos m);
    id = int (if x == posix_special_id then minus_one else pos x);
    default_ = is_default;
  })

parse_words :
    (t m x : ℕ) (rest : List ℕ) (is_default : Bool)
    → t < 2 ^ 16
    → m < 2 ^ 16
    → x < 2 ^ 32
    → parse_posix_ace (le16 t ++ (le16 m ++ le32 x) ++ rest) is_default ≡ entry_of t m x is_default
unfolding parse_posix_ace int_enum_call
parse_words t m x rest is_default ht hm hx = cc (tag_is, perm_is, id_is)
  where
    p : List ℕ
    p = le16 t ++ (le16 m ++ le32 x) ++ rest

    tag_is : read_le16 p ≡ some t
    tag_is = unfold le16 in read_le16-le16 t ((le16 m ++ le32 x) ++ rest) ht

    perm_is : read_le16 (drop 2 p) ≡ some m
    perm_is = unfold le16 in read_le16-le16 m (le32 x ++ rest) hm

    id_is : read_le32 (drop 4 p) ≡ some x
    id_is = unfold le16 in read_le32-le32 x rest hx

abbrev xid_of : PosixAce → ℕ
xid_of a = if is_special_tag (int_value a.tag) then posix_special_id else u32_of (int_value a.id)

entry_of-storable :
    (a : PosixAce)
    → IsStorable a
    → entry_of (u16_of (int_value a.tag)) (u16_of (int_value a.perms)) (xid_of a) a.default_ ≡ ok a
unfolding int_enum_call has_member is_special_tag
entry_of-storable a h = ground arith

xid_of-lt : (a : PosixAce) → IsStorable a → xid_of a < 2 ^ 32
unfolding is_special_tag
xid_of-lt a h = ground arith

pub parse-bytes_of :
    (a : PosixAce) (rest : List ℕ)
    → IsStorable a
    → parse_posix_ace (bytes_of a ++ rest) a.default_ ≡ ok a
parse-bytes_of a rest h =
    parse_words (u16_of (int_value a.tag)) (u16_of (int_value a.perms)) (xid_of a) rest a.default_
      (ground arith) (ground arith) (xid_of-lt a h)
    ∙ entry_of-storable a h
