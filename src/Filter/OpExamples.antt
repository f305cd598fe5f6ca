-- ===== src/Filter/OpExamples.antt =====
-- Paths and operators of src/cext/filter_utils/filter_list.c at concrete filters: the theorems at these inputs, and tests.
use truenas_pyos.Prelude.{
  ◌≡◌, refl, ◌⊎◌, ◌↔◌, Bool, true, false, none, some, [], ◌∷◌, if◌then◌else◌,
}
use truenas_pyos.Prelude.Bytes.{c_string}
use truenas_pyos.Py.{ok, raise, value_error, unknown_operator}
use truenas_pyos.Filter.Objects.{Str, codes}
use truenas_pyos.Filter.Path.{
  skip_spaces, read_digits, take_sign, list_index, ends_with_backslash, path_keys, PathPart,
  init_parts, index_keys, split_path, opt_split_keys,
}
use truenas_pyos.Filter.PathLaws.{escaped, dotted, split_path-dotted}
use truenas_pyos.Filter.Ops.{
  OpCode, find_op, take_ci, parse_op, SimpleFilter, negated, casefold_items, c_casefold, is_none,
  op_result, apply_op, op_in, op_nin,
}
use truenas_pyos.Filter.OpNames.{op_text}
use truenas_pyos.Filter.OpsLaws.{parse_op_iff, with_op, apply_op-Negation, in_nin}
use truenas_pyos.Filter.Sample.{Value, list_value, sample, text}

abbrev word : Str → Value
word s = text s

abbrev pub key_a : Str
key_a = codes "a"

abbrev key_b_c : Str
key_b_c = codes "b.c"

-- `a.b\.c` reads the key "b.c" of what "a" holds.
split_path-dotted_example :
    (path_keys (dotted key_a (key_b_c ∷ [])) ≡ key_a ∷ key_b_c ∷ [])
    × (split_path sample (text (dotted key_a (key_b_c ∷ []))) ≡ init_parts (key_a ∷ key_b_c ∷ []))
    × (opt_split_keys sample (text (dotted key_a (key_b_c ∷ [])))
        ≡ index_keys (key_a ∷ key_b_c ∷ []))
unfolding ends_with_backslash
split_path-dotted_example =
    split_path-dotted sample (text (dotted key_a (key_b_c ∷ []))) key_a (key_b_c ∷ []) (refl, tt)
      refl

dotted_test : dotted key_a (key_b_c ∷ []) ≡ codes "a.b\\.c"
unfolding dotted escaped
dotted_test = refl

-- strtol reads "+5" and " 5" as indices, and "-1" as none.
list_index_test : list_index (codes "12") ≡ some 12
unfolding list_index skip_spaces take_sign read_digits c_string
list_index_test = refl

list_index_plus_test : list_index (codes " +5") ≡ some 5
unfolding list_index skip_spaces take_sign read_digits c_string
list_index_plus_test = refl

list_index_minus_test : list_index (codes "-1") ≡ none
unfolding list_index skip_spaces take_sign read_digits c_string
list_index_minus_test = refl

parse_op_iff_example :
    ((op : OpCode)
      → (ci : Bool)
      → (parse_op (codes "Cnin") ≡ ok (op, ci)) ↔ (c_string (codes "Cnin") ≡ op_text op ci))
    × ((parse_op (codes "Cnin") ≡ raise (value_error unknown_operator))
        ⊎ (op : OpCode) × (ci : Bool) × (parse_op (codes "Cnin") ≡ ok (op, ci)))
parse_op_iff_example = parse_op_iff (codes "Cnin")

parse_op_test : parse_op (codes "Cnin") ≡ ok (op_nin, true)
unfolding parse_op find_op take_ci c_string
parse_op_test = refl

abbrev pub part_of : Str → PathPart
part_of k = record { key = k; is_wildcard = false; digit = none }

-- `["a", op, value]`
abbrev pub on_a : OpCode → Value → SimpleFilter Value
on_a op value = record {
  parts = part_of key_a ∷ [];
  op = op;
  ci = false;
  value = value;
  value_ci = none;
  re_match = none;
}

abbrev two_names : Value
two_names = list_value (text (codes "x") ∷ text (codes "y") ∷ [])

abbrev cin : SimpleFilter Value
cin = record {
  parts = part_of key_a ∷ [];
  op = op_in;
  ci = true;
  value = two_names;
  value_ci = some two_names;
  re_match = none;
}

-- `["a", "in", ["x", "y"]]`, which has no casefolded value.
abbrev exact_in : SimpleFilter Value
exact_in = on_a op_in two_names

apply_op-Negation_example : apply_op sample (with_op op_nin exact_in) (text (codes "X")) ≡ (
    if is_none sample (text (codes "X"))
    then ok false
    else negated (apply_op sample (with_op op_in exact_in) (text (codes "X"))))
apply_op-Negation_example =
    apply_op-Negation sample exact_in (text (codes "X")) two_names in_nin (λ e. cc)

apply_op_test : apply_op sample (with_op op_nin cin) (text (codes "X")) ≡ ok false
unfolding apply_op op_result c_casefold casefold_items is_none negated
apply_op_test = refl
