-- ===== src/Nfs4/Acl.antt =====
-- src/cext/os/nfs4acl.c: `NFS4ACL`, its constructor from entries and its readers.
use truenas_pyos.Prelude.{
  ℕ, ◌+◌, ◌*◌, ◌%◌, ◌^◌, Bool, true, Option, none, some, List, [], ◌∷◌, ◌++◌, drop, ltb, length,
  zero, suc, if◌then◌else◌,
}
use truenas_pyos.Prelude.Int.{u32_of}
use truenas_pyos.Prelude.Bits.{flag_set}
use truenas_pyos.Prelude.Bytes.{be32, read_be32}
use truenas_pyos.Py.{
  PyValue, py_none, Result, ok, raise, value_error, type_error, as_long, int_flag_call, load,
  raise_if, ◌>>=◌, ◌>>◌, data_too_short, data_truncated,
}
use truenas_pyos.Py.Sort.{ListSort}
use truenas_pyos.Nfs4.Slot.{nfs4ace_decode, nfs4ace_encode, nfs4ace_write_raw, read_raw}
use truenas_pyos.Nfs4.Types.{
  Item, Nfs4Ace, ace, acl_is_trivial, nfs4_ace_lt, nfs4_ace_sz, nfs4_ace_words, nfs4_hdr_sz,
  nfs4_hdr_words, other,
}

-- NFS4ACL_t: the raw XDR bytes.
pub record Nfs4Acl : Type 0 where
  pub data_bytes : List ℕ

-- The slot of the entry with index i, at `buf + NFS4_HDR_WORDS + i * NFS4_ACE_WORDS`.
abbrev pub slot_at : List ℕ → ℕ → List ℕ
slot_at buf i = drop (nfs4_hdr_sz + i * nfs4_ace_sz) buf

-- The acl_flags argument of from_aces: absent and `None` are 0.
unfoldable pub acl_flags_val : Option PyValue → Result ℕ
unfolding as_long
acl_flags_val none = ok 0
acl_flags_val (some py_none) = ok 0
acl_flags_val (some v) = as_long v >>= λ z. ok (u32_of z)

-- The type check of the loop in NFS4ACL_from_aces.
unfoldable pub checked_ace : Item → Result Nfs4Ace
checked_ace (ace a) = ok a
checked_ace other = raise type_error

-- The loop of NFS4ACL_from_aces from index i on; the slots that it writes follow one another.
unfoldable pub encode_aces : ℕ → ℕ → List Item → Result (List ℕ)
unfolding checked_ace nfs4ace_encode nfs4ace_write_raw
encode_aces endp i [] = ok []
encode_aces endp i (item ∷ items) = do
  a ← checked_ace item
  r ← nfs4ace_encode a (nfs4_hdr_words + i * nfs4_ace_words) endp
  rest ← encode_aces endp (i + 1) items
  ok (nfs4ace_write_raw r ++ rest)

-- What nfs4acl_alloc_ace_buf returns: the sorted sequence and the size of the buffer in words.
pub record AceBuf : Type 0 where
  pub aces_seq : List Item
  pub nwords : ℕ
  pub naces : ℕ

-- nfs4acl_alloc_ace_buf
unfoldable pub nfs4acl_alloc_ace_buf : ListSort Item → List Item → Result AceBuf
unfolding nfs4_ace_lt
nfs4acl_alloc_ace_buf list_sort aces = do
  aces_seq ← list_sort.sort nfs4_ace_lt aces
  let naces = length aces_seq
  let nwords = nfs4_hdr_words + naces * nfs4_ace_words
  ok (record { aces_seq = aces_seq; nwords = nwords; naces = naces })

-- NFS4ACL_from_aces
unfoldable pub from_aces : ListSort Item → List Item → Option PyValue → Result Nfs4Acl
unfolding nfs4acl_alloc_ace_buf acl_flags_val encode_aces
from_aces list_sort aces acl_flags = do
  buf ← nfs4acl_alloc_ace_buf list_sort aces
  flags ← acl_flags_val acl_flags
  body ← encode_aces buf.nwords 0 buf.aces_seq
  ok (record { data_bytes = be32 flags ++ (be32 (buf.naces % 2 ^ 32) ++ body) })

-- The word buf[1] of the header.
abbrev pub read_naces : List ℕ → Result ℕ
read_naces buf = load (read_be32 (drop 4 buf))

-- The loop of NFS4ACL_get_aces at index i, with `left` rounds left.
unfoldable pub decode_aces : ℕ → ℕ → List ℕ → Result (List Nfs4Ace)
unfolding read_raw nfs4ace_decode
decode_aces zero i buf = ok []
decode_aces (suc left) i buf = do
  r ← read_raw (slot_at buf i)
  a ← nfs4ace_decode r
  rest ← decode_aces left (i + 1) buf
  ok (a ∷ rest)

-- NFS4ACL_get_aces
unfoldable pub get_aces : Nfs4Acl → Result (List Nfs4Ace)
unfolding decode_aces
get_aces acl = do
  let datasz = length acl.data_bytes
  raise_if (ltb datasz nfs4_hdr_sz) (value_error data_too_short)
  naces ← read_naces acl.data_bytes
  raise_if (ltb datasz (nfs4_hdr_sz + naces * nfs4_ace_sz)) (value_error data_truncated)
  decode_aces naces 0 acl.data_bytes

-- NFS4ACL_get_acl_flags
unfoldable pub get_acl_flags : Nfs4Acl → Result PyValue
unfolding int_flag_call
get_acl_flags acl = do
  raise_if (ltb (length acl.data_bytes) nfs4_hdr_sz) (value_error data_too_short)
  flags ← load (read_be32 acl.data_bytes)
  int_flag_call flags

-- NFS4ACL_len
unfoldable pub acl_len : Nfs4Acl → Result ℕ
acl_len acl =
    let naces = read_naces acl.data_bytes in
    if ltb (length acl.data_bytes) nfs4_hdr_sz then ok 0 else naces

-- NFS4ACL_get_trivial
unfoldable pub get_trivial : Nfs4Acl → Result Bool
get_trivial acl =
    let flags = load (read_be32 acl.data_bytes) in
    if ltb (length acl.data_bytes) nfs4_hdr_sz
    then ok true
    else (flags >>= λ f. ok (flag_set f acl_is_trivial))
