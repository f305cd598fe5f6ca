-- ===== src/Userns/Examples.antt =====
-- The theorems about src/cext/os/userns.c at concrete maps, and tests.
use truenas_pyos.Prelude.{◌≤◌, ◌*◌, ◌≡◌, refl, none, List, [], ◌∷◌, map, length}
use truenas_pyos.Prelude.Int.{pos}
use truenas_pyos.Py.{
  ok, raise, value_error, inside_overflow, overflow_error, int, py_none, as_unsigned_long,
}
use truenas_pyos.Xattr.Calls.{done}
use truenas_pyos.Access.Pipe.{moves, interrupted}
use truenas_pyos.Userns.Clone.{
  Userns, UsernsEvent, UsernsKernel, do_create_idmap_userns, userns_result,
}
use truenas_pyos.Userns.CloneLaws.{CloneEnds, created_items, do_create_idmap_userns-CloneEnds}
use truenas_pyos.Userns.MapText.{read_map}
use truenas_pyos.Userns.Maps.{
  MapEntry, digits_from, do_create_idmap_mapping, entry_item, entry_object, format_map_text,
  items_of, map_line, parse_map_item, parse_map_list,
}
use truenas_pyos.Userns.MapsLaws.{IsCreated, format_map_text-read_map, map_text}

abbrev subordinate : MapEntry
subordinate = record { inside = 0; outside = 100000; map_length = 65536 }

subordinate-IsCreated : IsCreated subordinate
unfolding do_create_idmap_mapping
subordinate-IsCreated = refl

abbrev entries : List MapEntry
entries = subordinate ∷ []

format_map_text-read_map_example :
    (parse_map_list (items_of (map (λ e. entry_item (entry_object e)) entries)) ≡ ok entries)
    × (format_map_text entries ≡ ok (map_text entries))
    × (length (map_text entries) ≤ 33 * length entries)
    × (read_map (length entries) (map_text entries) ≡ entries)
format_map_text-read_map_example = format_map_text-read_map entries (subordinate-IsCreated, tt)

-- Every write is cut after two bytes and interrupted.
abbrev answers : UsernsKernel
answers = record {
  clone3 = done 4711;
  proc_file =
      λ file. record { open_errno = none; writes = moves 2 ∷ interrupted ∷ []; close_errno = none };
  get_user_namespace = done 9;
}

do_create_idmap_userns-CloneEnds_example :
    (r : Userns × List UsernsEvent) × (do_create_idmap_userns answers
        (created_items entries)
        (created_items entries)
      ≡ (userns_result r.0, r.1))
    × CloneEnds (map_text entries) (map_text entries) r
    × (read_map (length entries) (map_text entries) ≡ entries)
    × (read_map (length entries) (map_text entries) ≡ entries)
do_create_idmap_userns-CloneEnds_example =
    do_create_idmap_userns-CloneEnds answers subordinate subordinate [] []
      (subordinate-IsCreated, tt) (subordinate-IsCreated, tt)

map_line_text :
    map_line (record { inside = 0; outside = 105; map_length = 20 })
    ≡ b'0' ∷ b' ' ∷ b'1' ∷ b'0' ∷ b'5' ∷ b' ' ∷ b'2' ∷ b'0' ∷ b'\n' ∷ []
unfolding map_line digits_from
map_line_text = refl

last_range : do_create_idmap_mapping 4294967295 0 2 ≡ raise (value_error inside_overflow)
unfolding do_create_idmap_mapping
last_range = refl

-- The exception of the last object that is no number stands.
last_object :
    parse_map_item (
      entry_item (record {
        p_inside = py_none;
        p_outside = int (pos 18446744073709551616);
        p_length = int (pos 1);
      }))
    ≡ raise overflow_error
unfolding parse_map_item as_unsigned_long
last_object = refl
