-- ===== src/Filter/Path.antt =====
-- src/cext/filter_utils: dotted paths, `split_path` of filter_list.c and `opt_split_keys` of
-- filter_options.c.
use truenas_pyos.Prelude.{
  ℕ, ◌+◌, ◌-◌, ◌*◌, ◌^◌, Bool, true, false, not, ◌&&◌, ◌||◌, Option, none, some, List, [], ◌∷◌,
  ◌++◌, ◌==◌, leb, ltb, if◌then◌else◌,
}
use truenas_pyos.Prelude.Bytes.{c_string}
use truenas_pyos.Py.{Result, ok, raise, type_error, ◌>>=◌}
use truenas_pyos.Filter.Objects.{
  Str, str_eq, View, Runtime, as_utf8, none_view, dict_view, other_view, str_view, list_view,
  tuple_view,
}

abbrev pub dot : ℕ
dot = b'.'

abbrev pub backslash : ℕ
backslash = 92

-- isspace and isdigit in the C locale.
abbrev pub is_space : ℕ → Bool
is_space c = c == 32 || (leb 9 c && leb c 13)

abbrev pub is_decimal : ℕ → Bool
is_decimal c = leb b'0' c && leb c b'9'

unfoldable pub skip_spaces : Str → Str
skip_spaces [] = []
skip_spaces (c ∷ s) = let rest = skip_spaces s in if is_space c then rest else c ∷ s

-- The digits at the front: their value on top of `acc`, and what is behind them.
unfoldable pub read_digits : ℕ → Str → ℕ × Str
read_digits acc [] = (acc, [])
read_digits acc (c ∷ s) =
    let more = read_digits (acc * 10 + (c - b'0')) s in if is_decimal c then more else (acc, c ∷ s)

-- The sign that strtol takes, and whether it is a minus.
unfoldable pub take_sign : Str → Bool × Str
take_sign [] = (false, [])
take_sign (c ∷ s) =
    if c == b'-' then (true, s) else if c == b'+' then (false, s) else (false, c ∷ s)

abbrev starts_decimal : Str → Bool
starts_decimal [] = false
starts_decimal (c ∷ s) = is_decimal c

-- The test on strtol(key_c, &endp, 10): the whole text is read, the value is not negative and fits a
-- `long` (`errno == 0`). Spaces in front and a sign are strtol's, and "-0" is 0.
unfoldable pub list_index : Str → Option ℕ
unfolding skip_spaces read_digits take_sign
list_index key =
    let (minus, digits) = take_sign (skip_spaces (c_string key)) in
    let (v, endp) = read_digits 0 digits in
    if starts_decimal digits && str_eq endp [] && (not minus || v == 0) && ltb v (2 ^ 63)
    then some v
    else none

-- PyUnicode_Split at every dot.
abbrev pub cons_first : ℕ → List Str → List Str
cons_first c [] = (c ∷ []) ∷ []
cons_first c (p ∷ ps) = (c ∷ p) ∷ ps

unfoldable pub split_dots : Str → List Str
split_dots [] = [] ∷ []
split_dots (c ∷ s) = let rest = split_dots s in if c == dot then [] ∷ rest else cons_first c rest

-- PyUnicode_Tailmatch with a backslash, and PyUnicode_Substring without the last code point.
unfoldable pub ends_with_backslash : Str → Bool
ends_with_backslash [] = false
ends_with_backslash (c ∷ []) = c == backslash
ends_with_backslash (c ∷ d ∷ s) = ends_with_backslash (d ∷ s)

unfoldable pub without_last : Str → Str
without_last [] = []
without_last (c ∷ []) = []
without_last (c ∷ d ∷ s) = c ∷ without_last (d ∷ s)

-- The two loops over the pieces, with the piece `seg` taken: it is merged with those behind it while
-- it ends with a backslash.
unfoldable pub merge_pieces : Str → List Str → List Str
unfolding ends_with_backslash without_last
merge_pieces seg [] = seg ∷ []
merge_pieces seg (p ∷ ps) = elim (ends_with_backslash seg) [
  | true ↦ merge_pieces (without_last seg ++ (dot ∷ p)) ps
  | false ↦ seg ∷ merge_pieces p ps
]

unfoldable pub path_keys : Str → List Str
unfolding split_dots merge_pieces
path_keys name = elim (split_dots name) [ [] ↦ [] | p ∷ ps ↦ merge_pieces p ps ]

-- path_part_t; `digit_val` is the index where `is_digit` holds.
pub record PathPart : Type 0 where
  pub key : Str
  pub is_wildcard : Bool
  pub digit : Option ℕ

abbrev pub wildcard : Str
wildcard = b'*' ∷ []

-- init_path_part
unfoldable pub init_path_part : Str → Result PathPart
unfolding list_index as_utf8
init_path_part key = do
  key_c ← as_utf8 key
  let star = str_eq key_c wildcard
  ok (record { key = key; is_wildcard = star; digit = if star then none else list_index key_c })

-- The parts in turn; the first that fails ends the loop.
unfoldable pub init_parts : List Str → Result (List PathPart)
unfolding init_path_part
init_parts [] = ok []
init_parts (k ∷ ks) = do p ← init_path_part k; ps ← init_parts ks; ok (p ∷ ps)

-- One key of opt_split_keys with its index; `none` is its -1.
unfoldable pub key_with_index : Str → Result (Str × Option ℕ)
unfolding list_index as_utf8
key_with_index key = as_utf8 key >>= λ key_c. ok (key, list_index key_c)

unfoldable pub index_keys : List Str → Result (List (Str × Option ℕ))
unfolding key_with_index
index_keys [] = ok []
index_keys (k ∷ ks) = do p ← key_with_index k; ps ← index_keys ks; ok (p ∷ ps)

-- The text of a path argument; PyUnicode_Split refuses what is no `str`.
unfoldable pub text_of : {Obj : Type 0} → View Obj → Result Str
text_of (str_view s) = ok s
text_of none_view = raise type_error
text_of dict_view = raise type_error
text_of other_view = raise type_error
text_of (list_view xs) = raise type_error
text_of (tuple_view xs) = raise type_error

module _ {Obj : Type 0} (py : Runtime Obj) where
  -- split_path
  unfoldable pub split_path : Obj → Result (List PathPart)
  unfolding path_keys init_parts text_of
  split_path name_obj = text_of (py.view name_obj) >>= λ name. init_parts (path_keys name)

  -- opt_split_keys
  unfoldable pub opt_split_keys : Obj → Result (List (Str × Option ℕ))
  unfolding path_keys index_keys text_of
  opt_split_keys path_obj = text_of (py.view path_obj) >>= λ name. index_keys (path_keys name)
