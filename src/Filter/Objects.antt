-- ===== src/Filter/Objects.antt =====
-- The Python objects that src/cext/filter_utils reads. Filters, items and models are objects of the
-- caller's, so what CPython answers about them is a parameter; strings are lists of code points.
use Prim.Native.Char.{code}
use truenas_pyos.Prelude.{
  ℕ, Bool, true, false, ◌&&◌, ◌||◌, Option, none, some, List, [], ◌∷◌, String, ◌==◌, leb,
  if◌then◌else◌,
}
use truenas_pyos.Py.{Result, ok, raise, attribute_error, unicode_error}

-- The code points of a `str`.
abbrev pub Str : Type 0
Str = List ℕ

-- A literal of the source.
abbrev pub codes : String → Str
codes String.[] = []
codes (String.◌∷◌ c s) = code c ∷ codes s

abbrev pub str_eq : Str → Str → Bool
str_eq [] [] = true
str_eq [] (d ∷ t) = false
str_eq (c ∷ s) [] = false
str_eq (c ∷ s) (d ∷ t) = c == d && str_eq s t

-- What the type checks of the C API tell of an object: `None`, a `str`, an exact `dict`, a `list` or
-- a `tuple` with its items, or something else.
pub data View (Obj : Type 0) : Type 0 where
  none_view dict_view other_view : View Obj
  str_view : Str → View Obj
  list_view tuple_view : List Obj → View Obj

-- Py_EQ and the others of PyObject_RichCompareBool.
pub data CompareOp : Type 0 where
  py_eq py_ne py_gt py_ge py_lt py_le : CompareOp

-- The end that PyUnicode_Tailmatch looks at: its directions -1 and 1.
pub data TextEnd : Type 0 where
  at_start at_finish : TextEnd

-- The calls of the C API, which the running interpreter and the caller's classes answer.
pub record Runtime (Obj : Type 0) : Type 0 where
  pub view : Obj → View Obj
  pub none_obj : Obj
  pub str_obj : Str → Obj
  pub list_obj : List Obj → Obj
  pub size : Obj → Result ℕ
  pub get_item : Obj → ℕ → Result Obj
  pub dict_check : Obj → Bool
  pub dict_items : Obj → List (Str × Obj)
  pub dict_get : Obj → Str → Result (Option Obj)
  pub getattr : Obj → Str → Result Obj
  pub compare : CompareOp → Obj → Obj → Result Bool
  pub contains : Obj → Obj → Result Bool
  pub tailmatch : Obj → Obj → TextEnd → Result Bool
  pub casefold : Obj → Result Obj
  pub re_compile : Obj → Result Obj
  pub call : Obj → Obj → Result Obj
  pub is_true : Obj → Bool
  pub type_check : Obj → Bool
  pub type_of : Obj → Obj
  pub same : Obj → Obj → Bool
  pub type_lookup : Obj → Str → Option Obj
  pub instance_dict : Obj → Option Obj

-- A getattr that answers a missing attribute by `none`: PyErr_ExceptionMatches and PyErr_Clear.
unfoldable pub found_attr : {Obj : Type 0} → Result Obj → Result (Option Obj)
found_attr (ok v) = ok (some v)
found_attr (raise attribute_error) = ok none
found_attr (raise e) = raise e
found_attr Result.out_of_bounds = Result.out_of_bounds

-- PyUnicode_AsUTF8 of code points: a surrogate has no UTF-8 form.
abbrev pub is_surrogate : ℕ → Bool
is_surrogate c = leb 0xd800 c && leb c 0xdfff

abbrev pub has_surrogate : Str → Bool
has_surrogate [] = false
has_surrogate (c ∷ s) = is_surrogate c || has_surrogate s

unfoldable pub as_utf8 : Str → Result Str
as_utf8 s = if has_surrogate s then raise unicode_error else ok s
