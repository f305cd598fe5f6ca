-- ===== src/Py.antt =====
-- What the C extension sees of CPython: values, exceptions, and a result or a pending exception.
-- `PyLong_AsLong`, `PyLong_FromLong` and the calls of an `enum` class follow their documentation;
-- allocation succeeds, and reference counts are not modelled.
pub mod Sort
pub mod InsertionSort
pub mod SortLists
use truenas_pyos.Prelude.{
  ℕ, arith, ◌≡◌, ◌≢◌, refl, Bool, true, false, Option, none, some, List, [], ◌∷◌, String, ◌==◌,
  ◌||◌, if◌then◌else◌, ltb, ◌^◌,
}
use truenas_pyos.Prelude.Int.{ℤ, pos, negsuc, fits_long}

-- A value as the converters read it: `None`, an integer (a member of an `IntEnum` or an `IntFlag`
-- is its integer), or an object that is no integer.
pub data PyValue : Type 0 where
  py_none : PyValue
  int : ℤ → PyValue
  object : PyValue

-- The messages of the `ValueError`s that tell refusals apart; `label` is "access" or "default".
pub data Message : Type 0 where
  no_such_member : String → ℕ → Message
  data_too_short data_truncated source_acl_empty nothing_inherited : Message
  deny_on_special inherit_only_alone no_propagate_alone : Message
  propagate_on_file no_inheritable_ace : Message
  blob_too_short user_obj_count group_obj_count other_count : String → Message
  mask_required mask_count user_without_uid group_without_gid : String → Message
  bad_version unknown_tag : String → ℕ → Message
  default_not_on_directory trivial_acl no_default_acl : Message
  bad_mode no_creds id_out_of_range : Message
  cannot_casefold unknown_operator bad_filter_length expected_or : Message
  unknown_field : List ℕ → Message
  bad_select_spec empty_order_field list_index_select : Message
  get_with_limit get_with_offset limit_too_large bad_xattr_flags : Message
  closed_iterator skip_not_directory bad_dir_stack_entry : Message
  path_too_long : ℕ → Message
  handle_too_small handle_too_large handle_length uninitialized_handle : Message
  path_and_handle mount_id_required path_or_handle dir_fd_with_absolute : Message
  empty_path_flags unsupported_flags other_filesystem : Message
  inside_range outside_range length_range inside_overflow outside_overflow empty_map : Message

-- `os_message` is an `OSError` with a text alone, which names the errno if there is one.
pub data Exc : Type 0 where
  value_error : Message → Exc
  type_error overflow_error runtime_error system_error : Exc
  attribute_error recursion_error unicode_error : Exc
  other_error : ℕ → Exc
  os_error : ℕ → Exc
  child_error : ℕ → Exc
  os_message : Option ℕ → Exc
  not_a_directory not_implemented : Exc
  iterator_restore_error : ℕ → List ℕ → Exc

-- `out_of_bounds` is a read past the end of a buffer, which C leaves undefined.
pub data Result {ℓ} (A : Type ℓ) : Type ℓ where
  ok : A → Result A
  raise : Exc → Result A
  out_of_bounds : Result A

-- The next step runs on the value returned; an exception or an undefined read ends the chain.
infixl 5 ◌>>=◌
abbrev pub ◌>>=◌ {ℓ κ} : {X : Type ℓ} {Y : Type κ} → Result X → (X → Result Y) → Result Y
out_of_bounds >>= next = out_of_bounds
raise exc >>= next = raise exc
ok x >>= next = next x

infixl 5 ◌>>◌
abbrev pub ◌>>◌ {κ} : {Y : Type κ} → Result (Unit {0}) → Result Y → Result Y
check >> next = check >>= λ _. next

-- A test that raises when it holds.
abbrev pub raise_if : Bool → Exc → Result (Unit {0})
raise_if true e = raise e
raise_if false e = ok tt

-- A read from a buffer.
abbrev pub load {ℓ} : {A : Type ℓ} → Option A → Result A
load none = out_of_bounds
load (some a) = ok a

-- PyLong_AsLong: an `OverflowError` outside C's `long`, a `TypeError` on what is no integer.
unfoldable pub as_long : PyValue → Result ℤ
as_long (int z) = if fits_long z then ok z else raise overflow_error
as_long py_none = raise type_error
as_long object = raise type_error

-- PyLong_AsUnsignedLong: an `OverflowError` outside C's `unsigned long`.
unfoldable pub as_unsigned_long : PyValue → Result ℕ
as_unsigned_long (int (pos n)) = if ltb n (2 ^ 64) then ok n else raise overflow_error
as_unsigned_long (int (negsuc n)) = raise overflow_error
as_unsigned_long py_none = raise type_error
as_unsigned_long object = raise type_error

-- A member table of `enum.IntEnum`, and the call of the class at a number.
abbrev pub EnumTable : Type 0
EnumTable = List (String × ℕ)

unfoldable pub has_member : EnumTable → ℕ → Bool
has_member [] v = false
has_member ((name, member) ∷ table) v = member == v || has_member table v

unfoldable pub int_enum_call : String → EnumTable → ℕ → Result PyValue
unfolding has_member
int_enum_call class_name table v =
    if has_member table v
    then ok (int (pos v))
    else raise (value_error (no_such_member class_name v))

-- The call of an `enum.IntFlag` class keeps unknown bits (boundary `KEEP`).
unfoldable pub int_flag_call : ℕ → Result PyValue
int_flag_call v = ok (int (pos v))

-- A chain that returns came through its first step.
pub >>=-eq-ok {ℓ κ} :
    {X : Type ℓ} {Y : Type κ} (step : Result X) (next : X → Result Y) {y : Y}
    → (step >>= next) ≡ ok y
    → (x : X) × (step ≡ ok x) × (next x ≡ ok y)
>>=-eq-ok out_of_bounds next returned = cc
>>=-eq-ok (raise exc) next returned = cc
>>=-eq-ok (ok x) next returned = (x, refl, returned)

-- `m ≢ out_of_bounds` says that a run returns or raises: it reads nothing out of bounds.
pub raise_if-ne-out_of_bounds : (b : Bool) (e : Exc) → raise_if b e ≢ out_of_bounds
raise_if-ne-out_of_bounds true e h = cc
raise_if-ne-out_of_bounds false e h = cc

pub >>=-ne-out_of_bounds {ℓ κ} :
    {A : Type ℓ} {B : Type κ} (m : Result A) (f : A → Result B)
    → m ≢ out_of_bounds
    → ((a : A) → f a ≢ out_of_bounds)
    → (m >>= f) ≢ out_of_bounds
>>=-ne-out_of_bounds (ok a) f h k = k a
>>=-ne-out_of_bounds (raise e) f h k = λ p. cc
>>=-ne-out_of_bounds out_of_bounds f h k = absurd (h refl)

pub int_enum_call-ne-out_of_bounds :
    (name : String) (table : EnumTable) (v : ℕ) → int_enum_call name table v ≢ out_of_bounds
unfolding int_enum_call
int_enum_call-ne-out_of_bounds name table v = ground arith

pub as_long-ne-out_of_bounds : (v : PyValue) → as_long v ≢ out_of_bounds
unfolding as_long
as_long-ne-out_of_bounds (int z) = ground arith
as_long-ne-out_of_bounds _ = ground arith
