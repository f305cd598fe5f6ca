-- ===== src/Userns/Maps.antt =====
-- src/cext/os/userns.c: the entries of an id map, and their text.
use truenas_pyos.Prelude.{
  ℕ, zero, suc, ◌+◌, ◌-◌, ◌*◌, ◌/◌, ◌%◌, ◌^◌, ◌||◌, List, [], ◌∷◌, ◌++◌, length, ltb, leb, ◌==◌,
  if◌then◌else◌,
}
use truenas_pyos.Prelude.Int.{pos}
use truenas_pyos.Py.{
  Result, ok, raise, PyValue, int, value_error, type_error, runtime_error, as_unsigned_long,
  raise_if, inside_range, outside_range, length_range, inside_overflow, outside_overflow, ◌>>=◌,
  ◌>>◌,
}

abbrev pub max_id : ℕ
max_id = 2 ^ 32 - 1

-- struct map_entry
pub record MapEntry : Type 0 where
  pub inside : ℕ
  pub outside : ℕ
  pub map_length : ℕ

-- An IdmapMappingEntry. Python code can also make one without create_idmap_mapping, of any three
-- objects.
pub record IdmapMappingEntry : Type 0 where
  pub p_inside : PyValue
  pub p_outside : PyValue
  pub p_length : PyValue

abbrev pub entry_object : MapEntry → IdmapMappingEntry
entry_object e = record {
  p_inside = int (pos e.inside);
  p_outside = int (pos e.outside);
  p_length = int (pos e.map_length);
}

unfoldable pub do_create_idmap_mapping : ℕ → ℕ → ℕ → Result IdmapMappingEntry
do_create_idmap_mapping inside outside n =
    raise_if (ltb max_id inside) (value_error inside_range)
    >> raise_if (ltb max_id outside) (value_error outside_range)
    >> raise_if (n == 0 || ltb max_id n) (value_error length_range)
    >> raise_if (ltb (max_id + 1) (inside + n)) (value_error inside_overflow)
    >> raise_if (ltb (max_id + 1) (outside + n)) (value_error outside_overflow)
    >> ok (entry_object (record { inside = inside; outside = outside; map_length = n }))

-- An item of a map argument, and the argument.
pub data MapItem : Type 0 where
  not_an_entry : MapItem
  entry_item : IdmapMappingEntry → MapItem

pub data MapArg : Type 0 where
  not_a_sequence : MapArg
  items_of : List MapItem → MapArg

-- PyErr_Occurred behind the three conversions: the last exception set stands.
abbrev last_exc : Result MapEntry → Result ℕ → Result MapEntry
last_exc r (raise e) = raise e
last_exc r (ok n) = r
last_exc r Result.out_of_bounds = Result.out_of_bounds

-- The casts to uint32_t drop the high bits.
unfoldable pub parse_map_item : MapItem → Result MapEntry
parse_map_item not_an_entry = raise type_error
parse_map_item (entry_item e) =
    let inside = as_unsigned_long e.p_inside in
    let outside = as_unsigned_long e.p_outside in
    let n = as_unsigned_long e.p_length in
    last_exc
      (last_exc
        (inside >>= λ i. outside >>= λ o. n >>= λ l.
          ok (record { inside = i % 2 ^ 32; outside = o % 2 ^ 32; map_length = l % 2 ^ 32 }))
        outside)
      n

unfoldable pub parse_map_items : List MapItem → Result (List MapEntry)
unfolding parse_map_item
parse_map_items [] = ok []
parse_map_items (x ∷ items) =
    parse_map_item x >>= λ e. parse_map_items items >>= λ entries. ok (e ∷ entries)

unfoldable pub parse_map_list : MapArg → Result (List MapEntry)
unfolding parse_map_items
parse_map_list not_a_sequence = raise type_error
parse_map_list (items_of items) = parse_map_items items

-- The digits of "%u", at most so many.
unfoldable pub digits_from : ℕ → ℕ → List ℕ
digits_from zero n = []
digits_from (suc fuel) n =
    let front = digits_from fuel (n / 10) in
    (if ltb n 10 then [] else front) ++ ((b'0' + n % 10) ∷ [])

-- A uint32_t has ten digits at most.
abbrev pub decimal : ℕ → List ℕ
decimal n = digits_from 10 n

-- "%u %u %u\n"
unfoldable pub map_line : MapEntry → List ℕ
unfolding digits_from
map_line e =
    decimal e.inside
    ++ (b' ' ∷ (decimal e.outside ++ (b' ' ∷ (decimal e.map_length ++ (b'\n' ∷ [])))))

abbrev pub max_per_entry : ℕ
max_per_entry = 40

-- snprintf writes at `off` and needs room for a NUL.
unfoldable pub format_loop : ℕ → List ℕ → List MapEntry → Result (List ℕ)
unfolding map_line
format_loop cap buf [] = ok buf
format_loop cap buf (e ∷ entries) =
    let rest = format_loop cap (buf ++ map_line e) entries in
    if leb (cap - length buf) (length (map_line e)) then raise runtime_error else rest

unfoldable pub format_map_text : List MapEntry → Result (List ℕ)
unfolding format_loop
format_map_text entries = format_loop (length entries * max_per_entry + 1) [] entries
