-- ===== src/Filter/Sample.antt =====
-- A small interpreter for the tests of the filter modules: values, and what the calls answer on them.
use truenas_pyos.Prelude.{
  ℕ, suc, Bool, true, false, ◌&&◌, Option, none, some, List, [], ◌∷◌, map, ◌+◌, get_elem?, ltb, leb,
  ◌==◌, if◌then◌else◌, not,
}
use truenas_pyos.Py.{Result, ok, raise, type_error, attribute_error, other_error, ◌>>=◌}
use truenas_pyos.Filter.Objects.{
  Str, str_eq, View, CompareOp, Runtime, none_view, dict_view, other_view, str_view, list_view,
  py_eq, py_ne, py_gt, py_ge, py_lt, py_le,
}

mutual
  pub data Value : Type 0 where
    nothing : Value
    text : Str → Value
    number : ℕ → Value
    row : Fields → Value
    seq : Items → Value
    instance_of : ℕ → Fields → Value
    class_named : ℕ → Value

  pub data Fields : Type 0 where
    no_fields : Fields
    field : Str → Value → Fields → Fields

  pub data Items : Type 0 where
    no_items : Items
    item : Value → Items → Items

abbrev items_of : Items → List Value
items_of no_items = []
items_of (item v vs) = v ∷ items_of vs

abbrev seq_of : List Value → Items
seq_of [] = no_items
seq_of (v ∷ vs) = item v (seq_of vs)

abbrev pub list_value : List Value → Value
list_value vs = seq (seq_of vs)

abbrev fields_of : Fields → List (Str × Value)
fields_of no_fields = []
fields_of (field k v fs) = (k, v) ∷ fields_of fs

abbrev pub find_field : Fields → Str → Option Value
find_field no_fields key = none
find_field (field k v fs) key = if str_eq k key then some v else find_field fs key

abbrev view_of : Value → View Value
view_of nothing = none_view
view_of (text s) = str_view s
view_of (number n) = other_view
view_of (row fs) = dict_view
view_of (seq vs) = list_view (items_of vs)
view_of (instance_of c fs) = other_view
view_of (class_named c) = other_view

abbrev attribute : Option Value → Result Value
attribute none = raise attribute_error
attribute (some v) = ok v

abbrev compare_numbers : CompareOp → ℕ → ℕ → Bool
compare_numbers py_eq a b = a == b
compare_numbers py_ne a b = not (a == b)
compare_numbers py_gt a b = ltb b a
compare_numbers py_ge a b = leb b a
compare_numbers py_lt a b = ltb a b
compare_numbers py_le a b = leb a b

abbrev compare_values : CompareOp → Value → Value → Result Bool
compare_values op (number a) (number b) = ok (compare_numbers op a b)
compare_values py_eq (text s) (text t) = ok (str_eq s t)
compare_values py_ne (text s) (text t) = ok (not (str_eq s t))
compare_values py_eq _ _ = ok false
compare_values py_ne _ _ = ok true
compare_values _ _ _ = raise type_error

abbrev any_equal : List Value → Value → Result Bool
any_equal [] x = ok false
any_equal (v ∷ vs) x = compare_values py_eq v x >>= λ b. if b then ok true else any_equal vs x

abbrev lower : ℕ → ℕ
lower c = if leb b'A' c && leb c b'Z' then c + 32 else c

abbrev same_class : Value → Value → Bool
same_class (class_named a) (class_named b) = a == b
same_class _ _ = false

-- Instances of class 0 are models.
abbrev pub sample : Runtime Value
sample = record {
  view = view_of;
  none_obj = nothing;
  str_obj = text;
  list_obj = list_value;
  size = λ v. elim v [ seq vs ↦ ok (count vs) | _ ↦ raise type_error ];
  get_item = λ v i. elim v [ seq vs ↦ nth vs i | _ ↦ raise type_error ];
  dict_check = λ v. elim v [ row fs ↦ true | _ ↦ false ];
  dict_items = λ v. elim v [ row fs ↦ fields_of fs | _ ↦ [] ];
  dict_get = λ v key. elim v [ row fs ↦ ok (find_field fs key) | _ ↦ raise type_error ];
  getattr = λ v key. elim v [
    | instance_of c fs ↦ attribute (find_field fs key)
    | _ ↦ raise attribute_error
  ];
  compare = compare_values;
  contains = λ v x. elim v [ seq vs ↦ any_equal (items_of vs) x | _ ↦ raise type_error ];
  tailmatch = λ v x e. raise type_error;
  casefold = λ v. elim v [ text s ↦ ok (text (map lower s)) | _ ↦ raise type_error ];
  re_compile = λ v. raise (other_error 1);
  call = λ f v. raise type_error;
  is_true = λ v. true;
  type_check = λ v. elim v [ class_named c ↦ true | _ ↦ false ];
  type_of = λ v. elim v [ instance_of c fs ↦ class_named c | _ ↦ nothing ];
  same = same_class;
  type_lookup =
      λ v key. elim v [ class_named c ↦ if c == 0 then some nothing else none | _ ↦ none ];
  instance_dict = λ v. elim v [ instance_of c fs ↦ some (row fs) | _ ↦ none ];
}
  where
    count : Items → ℕ
    count no_items = 0
    count (item v vs) = suc (count vs)

    nth : Items → ℕ → Result Value
    nth vs i = elim (get_elem? (items_of vs) i) [ none ↦ raise (other_error 2) | some v ↦ ok v ]
