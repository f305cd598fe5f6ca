-- ===== src/Filter/OrderExamples.antt =====
-- The theorems about order_by and options of src/cext/filter_utils at concrete items.
use mathlib.Core.List.{Permᴰ}
use truenas_pyos.Prelude.{
  ◌⊎◌, Option, ℕ, ◌≡◌, refl, Bool, true, false, not, none, some, List, [], ◌∷◌, map, filter, arith,
  All,
}
use truenas_pyos.Prelude.Int.{ℤ, pos}
use truenas_pyos.Py.{Exc, Result, ok, raise, value_error, get_with_limit}
use truenas_pyos.Py.SortLists.{Pairwise}
use truenas_pyos.Py.InsertionSort.{insertion_sort}
use truenas_pyos.Filter.Objects.{Str, codes}
use truenas_pyos.Filter.Sample.{Value, find_field, sample, nothing, number, row, no_fields, field}
use truenas_pyos.Filter.Ops.{is_none}
use truenas_pyos.Filter.Options.{
  CompiledOptions, OptionArgs, compile_options, finish_options, count_of, items_of,
}
use truenas_pyos.Filter.OptionsLaws.{IsPage, finish_options_lem}
use truenas_pyos.Filter.Order.{
  NullsMode, OrderSpec, opt_traverse_keys, sort_by_spec, apply_order, nulls_in_order, nulls_first,
}
use truenas_pyos.Filter.Tagged.{tagged, Precedes}
use truenas_pyos.Filter.SortPairs.{HasValue, offset, AreRanked}
use truenas_pyos.Filter.OrderLaws.{is_value, with_nulls, sort_by_spec_nulls}
use truenas_pyos.Filter.OrderKeys.{MayPrecede, Keyed, directives, apply_order_stable}

abbrev key_a : Str
key_a = codes "a"

abbrev key_b : Str
key_b = codes "b"

abbrev row_of : ℕ → ℕ → Value
row_of a b = row (field key_a (number a) (field key_b (number b) no_fields))

abbrev by_key : Str → Bool → NullsMode → OrderSpec
by_key key reverse mode = record {
  keys = (key, none) ∷ [];
  top_key = key;
  reverse = reverse;
  nulls_mode = mode;
}

-- The value of a field, and the number of a value.
abbrev value_at : Str → Value → Value
value_at key v = elim v [
  | row fs ↦ elim (find_field fs key) [ none ↦ nothing | some x ↦ x ]
  | _ ↦ nothing
]

abbrev rank : Value → ℕ
rank v = elim v [ number n ↦ n | _ ↦ 0 ]

abbrev rows : List Value
rows = row_of 1 5 ∷ row_of 2 6 ∷ row_of 1 4 ∷ []

rows-HasValue : All (HasValue sample (by_key key_a true nulls_in_order) (value_at key_a)) rows
unfolding opt_traverse_keys
rows-HasValue = (refl, (refl, (refl, tt)))

rows-AreRanked : AreRanked sample (by_key key_a true nulls_in_order) (value_at key_a) rank rows
rows-AreRanked = (
  ((refl, refl), ((refl, refl), ((refl, refl), tt))),
  (
    ((refl, refl), ((refl, refl), ((refl, refl), tt))),
    (((refl, refl), ((refl, refl), ((refl, refl), tt))), tt),
  ),
)

abbrev with_null : List Value
with_null = row_of 2 0 ∷ row (field key_a nothing no_fields) ∷ row_of 1 0 ∷ []

-- What a row has under "a".
abbrev entry_a : Value → Option Value
entry_a v = elim v [ row fs ↦ find_field fs key_a | _ ↦ none ]

abbrev has_a : Value → Bool
has_a x = is_value sample insertion_sort (by_key key_a false nulls_first) (entry_a x)

-- The row without a value of "a" comes first.
sort_by_spec_nulls_example :
    (ys : List (ℕ × Value)) × (sort_by_spec sample insertion_sort
        (by_key key_a false nulls_first)
        with_null
      ≡ ok (
          with_nulls sample insertion_sort
            (by_key key_a false nulls_first)
            nulls_first
            (filter (λ x. not (has_a x)) with_null)
            (map (λ t. t.1) ys)))
    × Permᴰ (tagged 0 (filter has_a with_null)) ys
    × Pairwise (Precedes false (λ x. rank (value_at key_a x))) ys
unfolding opt_traverse_keys is_none
sort_by_spec_nulls_example =
    sort_by_spec_nulls sample insertion_sort (by_key key_a false nulls_first) (value_at key_a) rank
      entry_a with_null (λ e. cc) (omega arith) ((refl, refl), ((refl, refl), ((refl, refl), tt)))
      (refl, (refl, tt))
      (((refl, refl), ((refl, refl), tt)), (((refl, refl), ((refl, refl), tt)), tt))

-- "-a" and then "b".
abbrev keyed : List (Keyed sample insertion_sort)
keyed =
    (by_key key_a true nulls_in_order, value_at key_a, rank)
    ∷ (by_key key_b false nulls_in_order, value_at key_b, rank)
    ∷ []

apply_order_stable_example :
    (ys : List (ℕ × Value)) × (apply_order sample insertion_sort (map (λ k. k.0) keyed) rows
      ≡ ok (map (λ t. t.1) ys))
    × Permᴰ (tagged 0 rows) ys
    × Pairwise (MayPrecede (directives sample insertion_sort keyed)) ys
unfolding opt_traverse_keys
apply_order_stable_example = apply_order_stable sample insertion_sort keyed rows (
  (refl, (refl, (refl, (refl, tt))), rows-AreRanked),
  (
    (
      refl,
      (refl, (refl, (refl, tt))),
      (
        ((refl, refl), ((refl, refl), ((refl, refl), tt))),
        (
          ((refl, refl), ((refl, refl), ((refl, refl), tt))),
          (((refl, refl), ((refl, refl), ((refl, refl), tt))), tt),
        ),
      ),
    ),
    tt,
  ),
)

-- `get=True, limit=1`
abbrev first_only : OptionArgs Value
first_only = record {
  get_val = true;
  count_val = false;
  select_val = none;
  order_by_val = none;
  offset_val = pos 0;
  limit_val = pos 1;
  model_obj = nothing;
}

abbrev options_with : Bool → ℤ → ℤ → CompiledOptions Value
options_with get offset limit = record {
  get_flag = get;
  count_flag = false;
  shortcircuit = get;
  select_specs = [];
  order_specs = [];
  offset = offset;
  limit = limit;
  model = nothing;
}

compile_options_test :
    compile_options sample (record {
      get_val = true;
      count_val = false;
      select_val = none;
      order_by_val = none;
      offset_val = pos 0;
      limit_val = pos 2;
      model_obj = nothing;
    })
    ≡ raise (value_error get_with_limit)
unfolding compile_options is_none
compile_options_test = refl

-- The second of three rows.
finish_options_lem_example :
    ((false ≡ true)
      × (finish_options sample insertion_sort (options_with false (pos 1) (pos 1)) rows
          ≡ ok (count_of 3)))
    ⊎ ((false ≡ false)
        × (((ordered page : List Value) × (apply_order sample insertion_sort [] rows ≡ ok ordered)
              × (finish_options sample insertion_sort (options_with false (pos 1) (pos 1)) rows
                  ≡ ok (items_of page))
              × IsPage (pos 1) (pos 1) ordered page)
            ⊎ (((e : Exc) × (apply_order sample insertion_sort [] rows ≡ raise e)
                  × (finish_options sample insertion_sort (options_with false (pos 1) (pos 1)) rows
                      ≡ raise e))
                ⊎ ((apply_order sample insertion_sort [] rows ≡ Result.out_of_bounds)
                    × (finish_options sample insertion_sort
                          (options_with false (pos 1) (pos 1))
                          rows
                        ≡ Result.out_of_bounds)))))
finish_options_lem_example =
    finish_options_lem sample insertion_sort (options_with false (pos 1) (pos 1)) rows

finish_options_test :
    finish_options sample insertion_sort (options_with false (pos 1) (pos 1)) rows
    ≡ ok (items_of (row_of 2 6 ∷ []))
unfolding finish_options apply_order
finish_options_test = refl
