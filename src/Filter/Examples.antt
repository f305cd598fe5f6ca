-- ===== src/Filter/Examples.antt =====
-- The theorems about src/cext/filter_utils at concrete filters and items, and tests of the
-- definitions.
use truenas_pyos.Prelude.{
  ℕ, zero, suc, ◌≡◌, refl, ap, sym, inl, inr, Bool, true, false, none, some, List, [], ◌∷◌, ◌++◌,
  map, filter, ◌==◌, Option-cases, ==_iff, arith,
}
use truenas_pyos.Prelude.Bytes.{c_string}
use truenas_pyos.Py.{◌>>=◌, Result, ok, raise, recursion_error, type_error}
use truenas_pyos.Filter.Objects.{codes, found_attr, as_utf8}
use truenas_pyos.Filter.Path.{
  skip_spaces, read_digits, take_sign, list_index, split_dots, ends_with_backslash, merge_pieces,
  path_keys, init_path_part, init_parts, text_of, split_path,
}
use truenas_pyos.Filter.Ops.{find_op, take_ci, parse_op, is_none, op_result, apply_op, op_eq}
use truenas_pyos.Filter.Compile.{
  CompiledFilter, is_or_tag, is_sequence, compile_regex, compile_simple, compile_children,
  compile_and_branch, compile_branch, compile_node, compile_filter, leaf, or_node, nil, cons,
}
use truenas_pyos.Filter.Eval.{
  TypeCache, is_model_type, eval_parts, is_dict, eval_simple_from, eval_filter, check_item_model,
  filter_list_run, match_item,
}
use truenas_pyos.Filter.EvalLaws.{
  lookups, IsSound, lookups-IsSound, eval_plain, DictAgrees, eval_parts-eval_plain,
}
use truenas_pyos.Filter.DepthLaws.{answer, eval_filter-compile_filter}
use truenas_pyos.Filter.RunLaws.{
  Answers, filter_list_run-filter, filter_list_run-raise, filter_list_run-shortcircuit,
}
use truenas_pyos.Filter.Sample.{
  Value, list_value, find_field, sample, nothing, text, number, row, seq, instance_of, class_named,
  no_fields, field,
}
use truenas_pyos.Filter.OpExamples.{key_a, part_of, on_a}

abbrev row_a : ℕ → Value
row_a n = row (field key_a (number n) no_fields)

-- A model whose "a" is 3.
abbrev model_a : Value
model_a = instance_of 0 (field key_a (number 3) no_fields)

sample-DictAgrees : DictAgrees sample
sample-DictAgrees (instance_of c fs) d key e =
    let q : row fs ≡ d = cc in
    rw (sym q) (elim (Option-cases (find_field fs key)) [
      | inl n ↦ inl (ap ok n)
      | inr (v, s) ↦ inr (v, ap ok s, rw s refl)
    ])
sample-DictAgrees nothing d key e = cc
sample-DictAgrees (text s) d key e = cc
sample-DictAgrees (number n) d key e = cc
sample-DictAgrees (row fs) d key e = cc
sample-DictAgrees (seq vs) d key e = cc
sample-DictAgrees (class_named c) d key e = cc

eval_parts-eval_plain_example :
    eval_parts sample (on_a op_eq (number 3)) (part_of key_a ∷ []) model_a
    ≡ eval_plain sample (on_a op_eq (number 3)) (part_of key_a ∷ []) model_a
eval_parts-eval_plain_example =
    eval_parts-eval_plain sample sample-DictAgrees (on_a op_eq (number 3)) (part_of key_a ∷ [])
      model_a

eval_parts_test : eval_parts sample (on_a op_eq (number 3)) (part_of key_a ∷ []) model_a ≡ ok true
unfolding eval_parts apply_op op_result found_attr is_model_type
eval_parts_test = refl

same_class_sound : (x y : Value) → sample.same x y ≡ true → x ≡ y
same_class_sound (class_named a) (class_named b) e = ap class_named ((==_iff a b).0 e)
same_class_sound nothing y e = cc
same_class_sound (text s) y e = cc
same_class_sound (number n) y e = cc
same_class_sound (row fs) y e = cc
same_class_sound (seq vs) y e = cc
same_class_sound (instance_of c fs) y e = cc
same_class_sound (class_named a) nothing e = cc
same_class_sound (class_named a) (text s) e = cc
same_class_sound (class_named a) (number n) e = cc
same_class_sound (class_named a) (row fs) e = cc
same_class_sound (class_named a) (seq vs) e = cc
same_class_sound (class_named a) (instance_of c fs) e = cc

abbrev reset : TypeCache Value
reset = record { pyd_cache_type = none; pyd_cache_verdict = false }

-- The types of two rows, a model, an instance of another class and a model again.
abbrev types : List Value
types = nothing ∷ nothing ∷ class_named 0 ∷ class_named 1 ∷ class_named 0 ∷ []

lookups-IsSound_example :
    ((lookups sample types reset).0 ≡ map (is_model_type sample) types)
    × IsSound sample (lookups sample types reset).1
lookups-IsSound_example = lookups-IsSound sample same_class_sound types reset (λ tp e. cc)

abbrev filter_value : ℕ → Value
filter_value n = list_value (text key_a ∷ text (codes "=") ∷ number n ∷ [])

abbrev or_value : List Value → Value
or_value branches = list_value (text (codes "OR") ∷ list_value branches ∷ [])

abbrev three_or_four : CompiledFilter Value
three_or_four =
    or_node (cons (leaf (on_a op_eq (number 3))) (cons (leaf (on_a op_eq (number 4))) nil))

eval_filter-compile_filter_example :
    eval_filter sample (row_a 4) three_or_four 0 ≡ answer sample (row_a 4) three_or_four
unfolding compile_filter compile_node compile_children compile_branch compile_simple compile_regex
    parse_op find_op take_ci split_path path_keys split_dots merge_pieces ends_with_backslash
    init_parts init_path_part list_index skip_spaces take_sign read_digits c_string text_of as_utf8
    is_none is_sequence is_or_tag
eval_filter-compile_filter_example =
    eval_filter-compile_filter sample nothing 3 (or_value (filter_value 3 ∷ filter_value 4 ∷ []))
      (row_a 4) three_or_four (omega arith) refl

-- An OR of one conjunction of one filter, `n` times over.
abbrev tower : ℕ → Value
tower zero = filter_value 3
tower (suc n) = or_value (list_value (tower n ∷ []) ∷ [])

abbrev compile_and_eval : Value → Result Bool
compile_and_eval f = compile_filter sample nothing 65 f >>= λ c. eval_filter sample (row_a 3) c 0

-- 32 of them are evaluated; 33 compile as well, but evaluating them raises `RecursionError`.
tower_test : compile_and_eval (tower 32) ≡ ok true
unfolding compile_filter compile_node compile_children compile_branch compile_and_branch
    compile_simple compile_regex parse_op find_op take_ci split_path path_keys split_dots
    merge_pieces ends_with_backslash init_parts init_path_part list_index skip_spaces take_sign
    read_digits c_string text_of as_utf8 is_none is_sequence is_or_tag eval_filter eval_simple_from
    is_dict apply_op op_result
tower_test = refl

tower_limit_test : compile_and_eval (tower 33) ≡ raise recursion_error
unfolding compile_filter compile_node compile_children compile_branch compile_and_branch
    compile_simple compile_regex parse_op find_op take_ci split_path path_keys split_dots
    merge_pieces ends_with_backslash init_parts init_path_part list_index skip_spaces take_sign
    read_digits c_string text_of as_utf8 is_none is_sequence is_or_tag eval_filter eval_simple_from
    is_dict apply_op op_result
tower_limit_test = refl

abbrev is_three : Value → Bool
is_three v = elim v [
  | row fs ↦ elim (find_field fs key_a) [ some (number n) ↦ n == 3 | _ ↦ false ]
  | _ ↦ false
]

abbrev equals_three : List (CompiledFilter Value)
equals_three = leaf (on_a op_eq (number 3)) ∷ []

abbrev rows : List Value
rows = row_a 3 ∷ row_a 5 ∷ row_a 3 ∷ []

rows-Answers : Answers sample equals_three nothing is_three rows
unfolding match_item eval_filter eval_simple_from is_dict apply_op op_result check_item_model
    is_model_type is_none
rows-Answers = (refl, (refl, (refl, tt)))

filter_list_run-filter_example :
    filter_list_run sample (ok (record { items = rows; ending = none })) equals_three false nothing
    ≡ ok (filter is_three rows)
filter_list_run-filter_example =
    filter_list_run-filter sample equals_three nothing is_three rows rows-Answers

-- A model as an item is refused where no model was compiled for.
check_item_model_test : match_item sample model_a equals_three nothing ≡ raise type_error
unfolding match_item check_item_model is_model_type is_none
check_item_model_test = refl

filter_list_run-raise_example :
    filter_list_run sample
      (ok (record { items = rows ++ (model_a ∷ rows); ending = none }))
      equals_three
      false
      nothing
    ≡ raise type_error
filter_list_run-raise_example =
    filter_list_run-raise sample equals_three nothing is_three rows (model_a ∷ rows) none type_error
      rows-Answers check_item_model_test

filter_list_run-shortcircuit_example :
    filter_list_run sample
      (ok (record { items = row_a 5 ∷ row_a 3 ∷ model_a ∷ []; ending = some type_error }))
      equals_three
      true
      nothing
    ≡ ok (row_a 3 ∷ [])
unfolding match_item eval_filter eval_simple_from is_dict apply_op op_result check_item_model
    is_model_type is_none
filter_list_run-shortcircuit_example =
    filter_list_run-shortcircuit sample equals_three nothing (row_a 5 ∷ []) (row_a 3) (model_a ∷ [])
      (some type_error) (refl, tt) refl
