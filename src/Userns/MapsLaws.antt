-- ===== src/Userns/MapsLaws.antt =====
-- src/cext/os/userns.c: the text of a map fits its buffer, and reads as the entries.
use truenas_pyos.Prelude.{
  ℕ, ◌+◌, ◌-◌, ◌*◌, ◌%◌, ◌^◌, ◌≤◌, ◌<◌, ◌≡◌, refl, ap, sym, ◌∙◌, some, List, [], ◌∷◌, ◌++◌, map,
  length, arith, All, All-imp, length-append, lt→ltb, leb_of_lt,
}
use mathlib.Core.List.{append_assoc, append-nil}
use truenas_pyos.Py.{ok, as_unsigned_long}
use truenas_pyos.Userns.MapText.{
  length-digits_from, read_line, read_map, read_number-newline, read_number-space,
}
use truenas_pyos.Userns.Maps.{
  MapEntry, decimal, do_create_idmap_mapping, entry_item, entry_object, format_loop,
  format_map_text, items_of, map_line, max_per_entry, parse_map_item, parse_map_items,
  parse_map_list,
}

abbrev pub IsEntry : MapEntry → Type 0
IsEntry e = (e.inside < 2 ^ 32) × (e.outside < 2 ^ 32) × (e.map_length < 2 ^ 32)

map_line-append :
    (e : MapEntry) (rest : List ℕ)
    → map_line e ++ rest
      ≡ decimal e.inside
        ++ (b' ' ∷ (decimal e.outside ++ (b' ' ∷ (decimal e.map_length ++ (b'\n' ∷ rest)))))
unfolding map_line
map_line-append e rest =
    append_assoc (decimal e.inside) _ rest
    ∙ ap (λ t. decimal e.inside ++ (b' ' ∷ t))
        (append_assoc (decimal e.outside) _ rest
          ∙ ap (λ t. decimal e.outside ++ (b' ' ∷ t))
              (append_assoc (decimal e.map_length) (b'\n' ∷ []) rest))

read_line-map_line :
    (e : MapEntry) (rest : List ℕ) → IsEntry e → read_line (map_line e ++ rest) ≡ some (e, rest)
unfolding read_line
read_line-map_line e rest (i, o, l) =
    rw
      (
        map_line-append e rest,
        read_line,
        read_number-space e.inside _ i,
        read_number-space e.outside _ o,
        read_number-newline e.map_length rest l,
      )
      refl

-- The lines of the entries.
unfoldable pub map_text : List MapEntry → List ℕ
map_text [] = []
map_text (e ∷ entries) = map_line e ++ map_text entries

read_map-map_text :
    (entries : List MapEntry)
    → All IsEntry entries
    → read_map (length entries) (map_text entries) ≡ entries
unfolding read_map map_text
read_map-map_text [] h = refl
read_map-map_text (e ∷ entries) h =
    rw (read_map, read_line-map_line e (map_text entries) h.0)
      (ap (λ l. e ∷ l) (read_map-map_text entries h.1))

length-map_line : (e : MapEntry) → length (map_line e) ≤ 33
unfolding map_line
length-map_line e = omega (
  arith,
  length-digits_from 10 e.inside,
  length-digits_from 10 e.outside,
  length-digits_from 10 e.map_length,
  length-append (decimal e.map_length) (b'\n' ∷ []),
  length-append (decimal e.outside) (b' ' ∷ (decimal e.map_length ++ (b'\n' ∷ []))),
  length-append (decimal e.inside)
      (b' ' ∷ (decimal e.outside ++ (b' ' ∷ (decimal e.map_length ++ (b'\n' ∷ []))))),
)

length-map_text : (entries : List MapEntry) → length (map_text entries) ≤ 33 * length entries
unfolding map_text
length-map_text [] = omega arith
length-map_text (e ∷ entries) = omega (
  arith,
  length-map_line e,
  length-map_text entries,
  length-append (map_line e) (map_text entries),
)

format_loop-map_text :
    (entries : List MapEntry) (cap : ℕ) (buf : List ℕ)
    → length buf + length entries * max_per_entry < cap
    → format_loop cap buf entries ≡ ok (buf ++ map_text entries)
unfolding format_loop map_text
format_loop-map_text [] cap buf h = ap ok (sym (append-nil buf))
format_loop-map_text (e ∷ entries) cap buf h =
    let line = length-map_line e in
    let longer = length-append buf (map_line e) in
    rw
      (
        leb_of_lt (cap - length buf) (length (map_line e)) (omega arith),
        format_loop-map_text entries cap (buf ++ map_line e) (omega arith),
      )
      (ap ok (append_assoc buf (map_line e) (map_text entries)))

-- What create_idmap_mapping accepts.
abbrev pub IsCreated : MapEntry → Type 0
IsCreated e = do_create_idmap_mapping e.inside e.outside e.map_length ≡ ok (entry_object e)

IsCreated-IsEntry : (e : MapEntry) → IsCreated e → IsEntry e
unfolding do_create_idmap_mapping
IsCreated-IsEntry e h = ground arith

parse_map_item-IsEntry :
    (e : MapEntry) → IsEntry e → parse_map_item (entry_item (entry_object e)) ≡ ok e
unfolding parse_map_item as_unsigned_long
parse_map_item-IsEntry e (i, o, l) =
    let inside : e.inside % 2 ^ 32 ≡ e.inside = omega arith in
    let outside : e.outside % 2 ^ 32 ≡ e.outside = omega arith in
    let n : e.map_length % 2 ^ 32 ≡ e.map_length = omega arith in
    rw
      (
        lt→ltb e.inside (2 ^ 64) (omega arith),
        lt→ltb e.outside (2 ^ 64) (omega arith),
        lt→ltb e.map_length (2 ^ 64) (omega arith),
      )
      (rw (inside, outside, n) refl)

parse_map_items-IsEntry :
    (entries : List MapEntry)
    → All IsEntry entries
    → parse_map_items (map (λ e. entry_item (entry_object e)) entries) ≡ ok entries
unfolding parse_map_items
parse_map_items-IsEntry [] h = refl
parse_map_items-IsEntry (e ∷ entries) h =
    rw (parse_map_item-IsEntry e h.0, parse_map_items-IsEntry entries h.1) refl

-- Entries that create_idmap_mapping has made are parsed to the same numbers. Their text fits its
-- buffer, has 33 bytes at most for each entry, and read as lines of three numbers it gives the entries
-- again, in their order.
pub format_map_text-read_map :
    (entries : List MapEntry)
    → All IsCreated entries
    → (parse_map_list (items_of (map (λ e. entry_item (entry_object e)) entries)) ≡ ok entries)
      × (format_map_text entries ≡ ok (map_text entries))
      × (length (map_text entries) ≤ 33 * length entries)
      × (read_map (length entries) (map_text entries) ≡ entries)
unfolding parse_map_list format_map_text
format_map_text-read_map entries h =
    let valid = All-imp IsCreated IsEntry entries IsCreated-IsEntry h in
    (
      parse_map_items-IsEntry entries valid,
      format_loop-map_text entries (length entries * max_per_entry + 1) [] (omega arith),
      length-map_text entries,
      read_map-map_text entries valid,
    )
