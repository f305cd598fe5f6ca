-- ===== src/Posix/Types.antt =====
-- src/cext/os/posixacl.c: the constants, `POSIXAce` and its canonical order.
use truenas_pyos.Prelude.{ℕ, Bool, false, not, ◌||◌, Option, none, some, [], ◌∷◌, if◌then◌else◌}
use truenas_pyos.Prelude.Int.{ℤ, pos, minus_one, ltb_ℤ, eqb_ℤ}
use truenas_pyos.Py.{PyValue, int, Result, ok, raise, type_error, EnumTable, as_long, ◌>>=◌}

abbrev pub posix_hdr_sz : ℕ
posix_hdr_sz = 4

abbrev pub posix_ace_sz : ℕ
posix_ace_sz = 8

abbrev pub posix_acl_version : ℕ
posix_acl_version = 2

abbrev pub posix_special_id : ℕ
posix_special_id = 0xffff_ffff

abbrev pub tag_user_obj : ℕ
tag_user_obj = 0x01

abbrev pub tag_user : ℕ
tag_user = 0x02

abbrev pub tag_group_obj : ℕ
tag_group_obj = 0x04

abbrev pub tag_group : ℕ
tag_group = 0x08

abbrev pub tag_mask : ℕ
tag_mask = 0x10

abbrev pub tag_other : ℕ
tag_other = 0x20

abbrev pub posix_tag_table : EnumTable
posix_tag_table =
    ("USER_OBJ", 0x01)
    ∷ ("USER", 0x02)
    ∷ ("GROUP_OBJ", 0x04)
    ∷ ("GROUP", 0x08)
    ∷ ("MASK", 0x10)
    ∷ ("OTHER", 0x20)
    ∷ []

-- is_special_tag
unfoldable pub is_special_tag : ℤ → Bool
is_special_tag tag =
    eqb_ℤ tag (pos tag_user_obj)
    || eqb_ℤ tag (pos tag_group_obj)
    || eqb_ℤ tag (pos tag_mask)
    || eqb_ℤ tag (pos tag_other)

-- POSIXAce_t; `default_` is the truth value of its field.
pub record PosixAce : Type 0 where
  pub tag : PyValue
  pub perms : PyValue
  pub id : PyValue
  pub default_ : Bool

-- POSIXAce_new and POSIXAce_init: `id` and `default` are optional, -1 and false without them.
unfoldable pub posix_ace_init : PyValue → PyValue → Option PyValue → Option Bool → PosixAce
posix_ace_init tag perms id default_ = record {
  tag = tag;
  perms = perms;
  id = elim id [ none ↦ int minus_one | some v ↦ v ];
  default_ = elim default_ [ none ↦ false | some b ↦ b ];
}

-- An element of a sequence that a caller passes: a `POSIXAce`, or something else.
pub data Item : Type 0 where
  ace : PosixAce → Item
  other : Item

-- The `cmp < 0` of POSIXAce_richcompare.
unfoldable pub before : ℤ → ℤ → ℤ → ℤ → Bool
before tag_a id_a tag_b id_b =
    if not (eqb_ℤ tag_a tag_b)
    then ltb_ℤ tag_a tag_b
    else if not (eqb_ℤ id_a id_b)
    then ltb_ℤ id_a id_b
    else false

-- POSIXAce_richcompare at `Py_LT`. Of the four conversions the last that fails leaves its exception
-- set, so they are bound from the last to the first.
unfoldable pub posix_ace_lt : Item → Item → Result Bool
unfolding before as_long
posix_ace_lt (ace a) (ace b) = do
  id_b ← as_long b.id
  id_a ← as_long a.id
  tag_b ← as_long b.tag
  tag_a ← as_long a.tag
  ok (before tag_a id_a tag_b id_b)
posix_ace_lt (ace a) other = raise type_error
posix_ace_lt other b = raise type_error
