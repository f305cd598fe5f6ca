-- ===== src/Filter/Ops.antt =====
-- src/cext/filter_utils/filter_list.c: the operators, `parse_op`, `c_casefold` and `apply_op`.
use truenas_pyos.Prelude.{
  Bool, true, false, not, ◌&&◌, Option, none, some, List, [], ◌∷◌, String, ◌==◌, if◌then◌else◌,
}
use truenas_pyos.Prelude.Bytes.{c_string}
use truenas_pyos.Py.{
  Result, ok, raise, out_of_bounds, value_error, unknown_operator, cannot_casefold, ◌>>=◌,
}
use truenas_pyos.Filter.Objects.{
  Str, codes, str_eq, Runtime, none_view, dict_view, other_view, str_view, list_view, tuple_view,
  py_eq, py_ne, py_gt, py_ge, py_lt, py_le, at_start, at_finish,
}
use truenas_pyos.Filter.Path.{PathPart}

-- op_code_t
pub data OpCode : Type 0 where
  op_eq op_ne op_gt op_ge op_lt op_le op_re op_in op_nin op_rin op_rnin op_sw op_nsw op_ew op_new :
      OpCode

-- The `strcmp` lines of parse_op, in their order.
abbrev pub op_table : List (String × OpCode)
op_table =
    ("=", op_eq)
    ∷ ("!=", op_ne)
    ∷ (">", op_gt)
    ∷ (">=", op_ge)
    ∷ ("<", op_lt)
    ∷ ("<=", op_le)
    ∷ ("~", op_re)
    ∷ ("in", op_in)
    ∷ ("nin", op_nin)
    ∷ ("rin", op_rin)
    ∷ ("rnin", op_rnin)
    ∷ ("^", op_sw)
    ∷ ("!^", op_nsw)
    ∷ ("$", op_ew)
    ∷ ("!$", op_new)
    ∷ []

unfoldable pub find_op : List (String × OpCode) → Str → Option OpCode
find_op [] s = none
find_op ((name, op) ∷ table) s =
    let rest = find_op table s in if str_eq s (codes name) then some op else rest

-- A leading 'C' is taken off, and stands for a comparison of casefolded values.
unfoldable pub take_ci : Str → Bool × Str
take_ci [] = (false, [])
take_ci (c ∷ s) = if c == b'C' then (true, s) else (false, c ∷ s)

-- parse_op, on a C string
unfoldable pub parse_op : Str → Result (OpCode × Bool)
unfolding find_op take_ci
parse_op s =
    let (ci, name) = take_ci (c_string s) in
    elim (find_op op_table name) [
      | some op ↦ ok (op, ci)
      | none ↦ raise (value_error unknown_operator)
    ]

-- simple_filter_t: `value_ci` where the operator ignores case, `re_match` where it is a regex.
pub record SimpleFilter (Obj : Type 0) : Type 0 where
  pub parts : List PathPart
  pub op : OpCode
  pub ci : Bool
  pub value : Obj
  pub value_ci : Option Obj
  pub re_match : Option Obj

-- A NULL pointer passed to the C API, which is undefined.
abbrev pub not_null : {Obj : Type 0} → Option Obj → Result Obj
not_null none = out_of_bounds
not_null (some x) = ok x

-- `1 - result` on an answer, an error left alone.
unfoldable pub negated : Result Bool → Result Bool
negated r = r >>= λ b. ok (not b)

module _ {Obj : Type 0} (py : Runtime Obj) where
  -- The loop of c_casefold over a list or a tuple.
  unfoldable pub casefold_items : List Obj → Result (List Obj)
  casefold_items [] = ok []
  casefold_items (x ∷ xs) = do folded ← py.casefold x; rest ← casefold_items xs; ok (folded ∷ rest)

  -- c_casefold
  unfoldable pub c_casefold : Obj → Result Obj
  unfolding casefold_items
  c_casefold obj = elim (py.view obj) [
    | none_view ↦ ok obj
    | str_view s ↦ py.casefold obj
    | list_view xs ↦ casefold_items xs >>= λ folded. ok (py.list_obj folded)
    | tuple_view xs ↦ casefold_items xs >>= λ folded. ok (py.list_obj folded)
    | dict_view ↦ raise (value_error cannot_casefold)
    | other_view ↦ raise (value_error cannot_casefold)
  ]

  unfoldable pub is_none : Obj → Bool
  is_none v = elim (py.view v) [ none_view ↦ true | _ ↦ false ]

  -- The answer 0 for a value that is `None`.
  abbrev pub unless_none : Obj → Result Bool → Result Bool
  unless_none val answer = if is_none val then ok false else answer

  -- A call of the bound `pattern.match`: any result but a false one is a match.
  unfoldable pub regex_match : Option Obj → Obj → Result Bool
  unfolding is_none
  regex_match re_match source = do
    m ← not_null re_match
    let text = if is_none source then py.str_obj [] else source
    res ← py.call m text
    ok (not (is_none res) && py.is_true res)

  -- The `switch` of apply_op, on the value read and on the operands compared.
  unfoldable pub op_result : SimpleFilter Obj → OpCode → Obj → Obj → Obj → Result Bool
  unfolding regex_match negated is_none
  op_result sf op_eq val source cmp_val = py.compare py_eq source cmp_val
  op_result sf op_ne val source cmp_val = py.compare py_ne source cmp_val
  op_result sf op_gt val source cmp_val = py.compare py_gt source cmp_val
  op_result sf op_ge val source cmp_val = py.compare py_ge source cmp_val
  op_result sf op_lt val source cmp_val = py.compare py_lt source cmp_val
  op_result sf op_le val source cmp_val = py.compare py_le source cmp_val
  op_result sf op_re val source cmp_val = regex_match sf.re_match source
  op_result sf op_in val source cmp_val = py.contains cmp_val source
  op_result sf op_nin val source cmp_val = unless_none val (negated (py.contains cmp_val source))
  op_result sf op_rin val source cmp_val = unless_none val (py.contains source cmp_val)
  op_result sf op_rnin val source cmp_val = unless_none val (negated (py.contains source cmp_val))
  op_result sf op_sw val source cmp_val = unless_none val (py.tailmatch source cmp_val at_start)
  op_result sf op_nsw val source cmp_val =
      unless_none val (negated (py.tailmatch source cmp_val at_start))
  op_result sf op_ew val source cmp_val = unless_none val (py.tailmatch source cmp_val at_finish)
  op_result sf op_new val source cmp_val =
      unless_none val (negated (py.tailmatch source cmp_val at_finish))

  -- apply_op
  unfoldable pub apply_op : SimpleFilter Obj → Obj → Result Bool
  unfolding c_casefold op_result is_none
  apply_op sf val =
      let folded : Result Bool = do
        source ← if is_none val then ok val else c_casefold val
        cmp_val ← not_null sf.value_ci
        op_result sf sf.op val source cmp_val
      in if sf.ci then folded else op_result sf sf.op val val sf.value
