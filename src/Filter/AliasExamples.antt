-- ===== src/Filter/AliasExamples.antt =====
-- The alias theorem about src/cext/filter_utils/filter_list.c at a model with one aliased field.
use truenas_pyos.Prelude.{
  ℕ, ◌≡◌, refl, sym, ◌∙◌, inl, inr, true, none, some, List, [], ◌∷◌, map, ◌==◌, if◌then◌else◌,
  Bool-cases,
}
use truenas_pyos.Prelude.Bytes.{c_string}
use truenas_pyos.Py.{Result, ok, raise, attribute_error, type_error, ◌>>=◌}
use truenas_pyos.Filter.Objects.{Str, codes, str_eq, Runtime, as_utf8, none_view, other_view}
use truenas_pyos.Filter.Path.{
  skip_spaces, read_digits, take_sign, list_index, PathPart, init_path_part,
}
use truenas_pyos.Filter.Ops.{is_none}
use truenas_pyos.Filter.OpNames.{str_eq_sound}
use truenas_pyos.Filter.Alias.{
  unwrap_model_annotation, find_alias, find_field_by_alias, resolve_alias_path, resolve_alias_keys,
}
use truenas_pyos.Filter.AliasLaws.{
  key_of, plain_part, FieldsAreNames, resolve_alias_keys-resolve_alias_path,
}

-- Handles: 0 is None, 1 a model class, 2 its `model_fields`, 3 the info of its field `user_name`, 4
-- the text "userName", the field's alias, and 5 any other text.
abbrev one_model : Runtime ℕ
one_model = record {
  view = λ o. if o == 0 then none_view else other_view;
  none_obj = 0;
  str_obj = λ s. if str_eq s (codes "userName") then 4 else 5;
  list_obj = λ xs. 0;
  size = λ o. raise type_error;
  get_item = λ o i. raise type_error;
  dict_check = λ o. o == 2;
  dict_items = λ o. (codes "user_name", 3) ∷ [];
  dict_get = λ o key. ok (if str_eq key (codes "user_name") then some 3 else none);
  getattr = attr;
  compare = λ op a b. ok (a == b);
  contains = λ o x. raise type_error;
  tailmatch = λ o x e. raise type_error;
  casefold = λ o. raise type_error;
  re_compile = λ o. raise type_error;
  call = λ f x. raise type_error;
  is_true = λ o. true;
  type_check = λ o. o == 1;
  type_of = λ o. 0;
  same = λ a b. a == b;
  type_lookup = λ o key. none;
  instance_dict = λ o. none;
}
  where
    attr : ℕ → Str → Result ℕ
    attr o key =
        if o == 1
        then ok 2
        else if o == 3
        then if str_eq key (codes "alias") then ok 4 else ok 0
        else raise attribute_error

found-user_name :
    (key name : Str) (finfo : ℕ) (fields : ℕ)
    → find_field_by_alias one_model fields key ≡ ok (some (name, finfo))
    → codes "user_name" ≡ name
unfolding find_field_by_alias find_alias is_none
found-user_name key name finfo fields e = elim (Bool-cases (str_eq key (codes "userName"))) [
  | inl a ↦
      let found : find_field_by_alias one_model fields key ≡ ok (some (codes "user_name", 3)) =
        rw a refl in
      let q = sym found ∙ e in cc
  | inr a ↦ elim (Bool-cases (str_eq key (codes "user_name"))) [
    | inl b ↦
        let found : find_field_by_alias one_model fields key ≡ ok (some (key, 3)) =
          rw (a, b) refl in
        let q = sym found ∙ e in let k = str_eq_sound key (codes "user_name") b in cc
    | inr b ↦
        let found : find_field_by_alias one_model fields key ≡ ok none = rw (a, b) refl in
        let q = sym found ∙ e in cc
  ]
]

one_model-FieldsAreNames : FieldsAreNames one_model
unfolding init_path_part as_utf8 list_index skip_spaces take_sign read_digits c_string
one_model-FieldsAreNames fields key name finfo e =
    rw (sym (found-user_name key name finfo fields e)) refl

-- `userName` and then a key of a model that is not known any more.
abbrev path : List PathPart
path = plain_part (codes "userName") ∷ plain_part (codes "rest") ∷ []

resolve_alias_keys-resolve_alias_path_example :
    (resolve_alias_path one_model path (some 1) >>= λ ps. ok (map key_of ps))
    ≡ resolve_alias_keys one_model (map key_of path) (some 1)
resolve_alias_keys-resolve_alias_path_example =
    resolve_alias_keys-resolve_alias_path one_model one_model-FieldsAreNames path (some 1)
      (refl, (refl, tt))

resolve_alias_path_test :
    resolve_alias_path one_model path (some 1)
    ≡ ok (plain_part (codes "user_name") ∷ plain_part (codes "rest") ∷ [])
unfolding resolve_alias_path find_field_by_alias find_alias init_path_part is_none as_utf8
    list_index skip_spaces take_sign read_digits c_string unwrap_model_annotation
resolve_alias_path_test = refl
