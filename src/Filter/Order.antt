-- ===== src/Filter/Order.antt =====
-- src/cext/filter_utils/filter_options.c: order_by, from `compile_order_specs` to `apply_order`, and
-- what `apply_options` does behind the projection.
use truenas_pyos.Prelude.{
  ℕ, zero, suc, ◌+◌, Bool, true, false, not, Option, none, some, List, [], ◌∷◌, ◌++◌, map, length,
  get_elem?, leb, ◌==◌, if◌then◌else◌,
}
use truenas_pyos.Prelude.Bytes.{c_string}
use truenas_pyos.Prelude.Int.{ℤ, pos, negsuc, ltb_ℤ}
use truenas_pyos.Py.{Result, ok, raise, load, value_error, empty_order_field, ◌>>=◌}
use truenas_pyos.Py.Sort.{ListSort}
use truenas_pyos.Filter.Objects.{
  Str, codes, str_eq, Runtime, found_attr, as_utf8, none_view, dict_view, other_view, str_view,
  list_view, tuple_view, py_eq, py_lt,
}
use truenas_pyos.Filter.Path.{dot, text_of, opt_split_keys}
use truenas_pyos.Filter.Ops.{is_none}
use truenas_pyos.Filter.Alias.{resolve_alias_keys}
use truenas_pyos.Filter.Eval.{item_or_none}

-- `nulls_mode`: 0, 1 and 2.
pub data NullsMode : Type 0 where
  nulls_in_order nulls_first nulls_last : NullsMode

-- compiled_order_spec_t
pub record OrderSpec : Type 0 where
  pub keys : List (Str × Option ℕ)
  pub top_key : Str
  pub reverse : Bool
  pub nulls_mode : NullsMode

-- strncmp with a prefix, and what is behind it.
unfoldable pub behind_prefix : Str → Str → Option Str
behind_prefix [] s = some s
behind_prefix (p ∷ prefix) [] = none
behind_prefix (p ∷ prefix) (c ∷ s) =
    let rest = behind_prefix prefix s in if c == p then rest else none

-- The nulls prefix of a directive, and the field behind it.
unfoldable pub take_nulls_mode : Str → NullsMode × Str
unfolding behind_prefix
take_nulls_mode d = elim (behind_prefix (codes "nulls_first:") d) [
  | some field ↦ (nulls_first, field)
  | none ↦ elim (behind_prefix (codes "nulls_last:") d) [
    | some field ↦ (nulls_last, field)
    | none ↦ (nulls_in_order, d)
  ]
]

unfoldable pub take_minus : Str → Bool × Str
take_minus [] = (false, [])
take_minus (c ∷ s) = if c == b'-' then (true, s) else (false, c ∷ s)

-- opt_join_keys
unfoldable pub opt_join_keys : List Str → Str
opt_join_keys [] = []
opt_join_keys (k ∷ []) = k
opt_join_keys (k ∷ l ∷ ks) = k ++ (dot ∷ opt_join_keys (l ∷ ks))

-- A sort key with its index, and the indices' sign in a descending pass.
abbrev pub signed : Bool → ℕ → ℤ
signed false i = pos i
signed true zero = pos 0
signed true (suc i) = negsuc i

-- `if (orig < 0) orig = -orig`
abbrev pub unsigned : ℤ → ℕ
unsigned (pos i) = i
unsigned (negsuc i) = suc i

-- PyList_Reverse
unfoldable pub reversed : {A : Type 0} → List A → List A
reversed [] = []
reversed (x ∷ xs) = reversed xs ++ (x ∷ [])

module _ {Obj : Type 0} (py : Runtime Obj) where
  -- One directive of compile_order_specs.
  unfoldable pub compile_order_spec : Obj → Obj → Result OrderSpec
  unfolding text_of as_utf8 take_nulls_mode take_minus opt_split_keys opt_join_keys
      resolve_alias_keys is_none
  compile_order_spec model item = do
    text ← text_of (py.view item)
    d ← as_utf8 text
    let (mode, directive) = take_nulls_mode (c_string d)
    let (minus, field) = take_minus directive
    if str_eq field [] then raise (value_error empty_order_field) else do
      keys ← opt_split_keys py (py.str_obj field)
      let plain : Result OrderSpec =
          ok (record { keys = keys; top_key = field; reverse = minus; nulls_mode = mode })
      let resolved : Result OrderSpec = do
        names ← resolve_alias_keys py keys (some model)
        ok (record {
          keys = names;
          top_key = opt_join_keys (map (λ k. k.0) names);
          reverse = minus;
          nulls_mode = mode;
        })
      if is_none py model then plain else resolved

  -- The loop of compile_order_specs from index di on, with `left` rounds left.
  unfoldable pub order_specs_from : Obj → Obj → ℕ → ℕ → Result (List OrderSpec)
  unfolding compile_order_spec
  order_specs_from model order_by zero di = ok []
  order_specs_from model order_by (suc left) di = do
    item ← py.get_item order_by di
    spec ← compile_order_spec model item
    specs ← order_specs_from model order_by left (di + 1)
    ok (spec ∷ specs)

  -- compile_order_specs
  unfoldable pub compile_order_specs : Obj → Obj → Result (List OrderSpec)
  unfolding order_specs_from
  compile_order_specs order_by model = do
    nspecs ← py.size order_by
    order_specs_from model order_by nspecs 0

  -- The rest of a traversal at a value, or `None` without one.
  abbrev at_found : Result (Option Obj) → (Obj → Result Obj) → Result Obj
  at_found value next = value >>= λ hit. elim hit [ none ↦ ok py.none_obj | some v ↦ next v ]

  -- opt_traverse_keys; `None` stands for a path that is absent, which the callers do not tell apart.
  unfoldable pub opt_traverse_keys : Obj → List (Str × Option ℕ) → Result Obj
  unfolding found_attr
  opt_traverse_keys cur [] = ok cur
  opt_traverse_keys cur ((key, index) ∷ keys) =
      let attr = at_found (found_attr (py.getattr cur key)) (λ v. opt_traverse_keys v keys) in
      let on_items : List Obj → Result Obj =
        λ xs. elim index [ some n ↦ opt_traverse_keys (item_or_none py xs n) keys | none ↦ attr ] in
      elim (py.view cur) [
        | dict_view ↦ at_found (py.dict_get cur key) (λ v. opt_traverse_keys v keys)
        | list_view xs ↦ on_items xs
        | tuple_view xs ↦ on_items xs
        | none_view ↦ attr
        | str_view s ↦ attr
        | other_view ↦ attr
      ]

  -- Whether partition_nulls puts an item with the others: an exact dict that has the key, not `None`.
  unfoldable pub has_value : Str → Obj → Result Bool
  unfolding is_none
  has_value top_key item = elim (py.view item) [
    | dict_view ↦ py.dict_get item top_key >>= λ hit. elim hit [
      | none ↦ ok false
      | some v ↦ ok (not (is_none py v))
    ]
    | _ ↦ ok false
  ]

  -- partition_nulls: the nulls and the others.
  unfoldable pub partition_nulls : Str → List Obj → Result (List Obj × List Obj)
  unfolding has_value
  partition_nulls top_key [] = ok ([], [])
  partition_nulls top_key (item ∷ items) = do
    other ← has_value top_key item
    buckets ← partition_nulls top_key items
    ok (if other then (buckets.0, item ∷ buckets.1) else (item ∷ buckets.0, buckets.1))

  -- build_sort_pairs from index i on.
  unfoldable pub sort_pairs_from : OrderSpec → List Obj → ℕ → Result (List (Obj × ℤ))
  unfolding opt_traverse_keys
  sort_pairs_from spec [] i = ok []
  sort_pairs_from spec (item ∷ items) i = do
    raw ← opt_traverse_keys item spec.keys
    pairs ← sort_pairs_from spec items (i + 1)
    ok ((raw, signed spec.reverse i) ∷ pairs)

  -- The comparison of two pairs as tuples: by the first components that differ.
  unfoldable pub pair_lt : Obj × ℤ → Obj × ℤ → Result Bool
  pair_lt a b =
      let keys = py.compare py_lt a.0 b.0 in
      py.compare py_eq a.0 b.0 >>= λ same_key. if same_key then ok (ltb_ℤ a.1 b.1) else keys

  -- reconstruct_from_pairs; PyList_GET_ITEM checks no bounds.
  unfoldable pub reconstruct_from_pairs : List Obj → List (Obj × ℤ) → Result (List Obj)
  reconstruct_from_pairs source [] = ok []
  reconstruct_from_pairs source (pair ∷ pairs) = do
    item ← load (get_elem? source (unsigned pair.1))
    items ← reconstruct_from_pairs source pairs
    ok (item ∷ items)

  module _ (list_sort : ListSort (Obj × ℤ)) where
    -- The sort of the items that are no nulls.
    unfoldable pub sort_others : OrderSpec → List Obj → Result (List Obj)
    unfolding sort_pairs_from pair_lt reconstruct_from_pairs reversed
    sort_others spec items = do
      pairs ← sort_pairs_from spec items 0
      sorted ← list_sort.sort (pair_lt) pairs
      reconstruct_from_pairs items (if spec.reverse then reversed sorted else sorted)

    -- sort_by_spec
    unfoldable pub sort_by_spec : OrderSpec → List Obj → Result (List Obj)
    unfolding sort_others partition_nulls
    sort_by_spec spec items =
        let apart : (List Obj → List Obj → List Obj) → Result (List Obj) = λ joined. do
          buckets ← partition_nulls spec.top_key items
          sorted ← sort_others spec buckets.1
          ok (joined buckets.0 sorted)
        in if leb (length items) 1 then ok items else elim spec.nulls_mode [
          | nulls_in_order ↦ sort_others spec items
          | nulls_first ↦ apart (λ nulls sorted. nulls ++ sorted)
          | nulls_last ↦ apart (λ nulls sorted. sorted ++ nulls)
        ]

    -- apply_order: the last directive first.
    unfoldable pub apply_order : List OrderSpec → List Obj → Result (List Obj)
    unfolding sort_by_spec
    apply_order [] items = ok items
    apply_order (spec ∷ specs) items = apply_order specs items >>= λ rv. sort_by_spec spec rv
