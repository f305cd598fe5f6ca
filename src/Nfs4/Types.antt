-- ===== src/Nfs4/Types.antt =====
-- src/cext/os/nfs4acl.c: the constants, `NFS4Ace` and its canonical order.
use truenas_pyos.Prelude.{ℕ, ◌+◌, ◌*◌, Bool, Option, none, some, [], ◌∷◌, ltb, if◌then◌else◌}
use truenas_pyos.Prelude.Int.{ℤ, pos, minus_one, u64_of, eqb_ℤ}
use truenas_pyos.Prelude.Bits.{flag_set}
use truenas_pyos.Py.{PyValue, int, Result, ok, raise, type_error, EnumTable, as_long, ◌>>=◌}

abbrev pub nfs4_hdr_sz : ℕ
nfs4_hdr_sz = 8

abbrev pub nfs4_ace_sz : ℕ
nfs4_ace_sz = 20

abbrev pub nfs4_hdr_words : ℕ
nfs4_hdr_words = 2

abbrev pub nfs4_ace_words : ℕ
nfs4_ace_words = 5

abbrev pub who_named : ℕ
who_named = 0

abbrev pub access_allowed_ace_type : ℕ
access_allowed_ace_type = 0

abbrev pub access_denied_ace_type : ℕ
access_denied_ace_type = 1

abbrev pub file_inherit_ace : ℕ
file_inherit_ace = 0x1

abbrev pub directory_inherit_ace : ℕ
directory_inherit_ace = 0x2

abbrev pub no_propagate_inherit_ace : ℕ
no_propagate_inherit_ace = 0x4

abbrev pub inherit_only_ace : ℕ
inherit_only_ace = 0x8

abbrev pub inherited_ace : ℕ
inherited_ace = 0x80

abbrev pub inherit_mask : ℕ
inherit_mask = 0xf

abbrev pub acl_is_trivial : ℕ
acl_is_trivial = 0x10000

abbrev pub acl_is_dir : ℕ
acl_is_dir = 0x20000

abbrev pub nfs4_ace_type_table : EnumTable
nfs4_ace_type_table = ("ALLOW", 0) ∷ ("DENY", 1) ∷ ("AUDIT", 2) ∷ ("ALARM", 3) ∷ []

abbrev pub nfs4_who_table : EnumTable
nfs4_who_table = ("NAMED", 0) ∷ ("OWNER", 1) ∷ ("GROUP", 2) ∷ ("EVERYONE", 3) ∷ []

-- NFS4Ace_t
pub record Nfs4Ace : Type 0 where
  pub ace_type : PyValue
  pub ace_flags : PyValue
  pub access_mask : PyValue
  pub who_type : PyValue
  pub who_id : PyValue

-- NFS4Ace_new and NFS4Ace_init: `who_id` is optional and -1 without it.
unfoldable pub nfs4_ace_init : PyValue → PyValue → PyValue → PyValue → Option PyValue → Nfs4Ace
nfs4_ace_init ace_type ace_flags access_mask who_type none = record {
  ace_type = ace_type;
  ace_flags = ace_flags;
  access_mask = access_mask;
  who_type = who_type;
  who_id = int minus_one;
}
nfs4_ace_init ace_type ace_flags access_mask who_type (some who_id) = record {
  ace_type = ace_type;
  ace_flags = ace_flags;
  access_mask = access_mask;
  who_type = who_type;
  who_id = who_id;
}

-- An element of a sequence that a caller passes: an `NFS4Ace`, or something else.
pub data Item : Type 0 where
  ace : Nfs4Ace → Item
  other : Item

-- The bucket of NFS4Ace_richcompare: inherited after explicit, allow after the other types.
unfoldable pub sort_key : ℤ → ℤ → ℕ
sort_key ace_type flags =
    (if flag_set (u64_of flags) inherited_ace then 1 else 0) * 2
    + (if eqb_ℤ ace_type (pos access_allowed_ace_type) then 1 else 0)

-- NFS4Ace_richcompare at `Py_LT`. Where both comparisons of Python return `NotImplemented` it
-- raises a `TypeError`. The four conversions run in the source's order and the exception of the last
-- that fails is the one that stays set, so they are bound here from the last to the first.
unfoldable pub nfs4_ace_lt : Item → Item → Result Bool
unfolding sort_key as_long
nfs4_ace_lt (ace a) (ace b) = do
  flags_b ← as_long b.ace_flags
  type_b ← as_long b.ace_type
  flags_a ← as_long a.ace_flags
  type_a ← as_long a.ace_type
  ok (ltb (sort_key type_a flags_a) (sort_key type_b flags_b))
nfs4_ace_lt (ace a) other = raise type_error
nfs4_ace_lt other b = raise type_error
