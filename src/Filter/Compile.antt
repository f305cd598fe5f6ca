-- ===== src/Filter/Compile.antt =====
-- src/cext/filter_utils/filter_list.c: the tree of a filter, and its compilation.
use truenas_pyos.Prelude.{
  ℕ, zero, suc, ◌+◌, Bool, true, false, not, ◌&&◌, Option, none, some, List, [], ◌∷◌, ◌==◌,
  if◌then◌else◌,
}
use truenas_pyos.Py.{
  Result, ok, raise, value_error, type_error, recursion_error, bad_filter_length, expected_or,
  ◌>>=◌,
}
use truenas_pyos.Filter.Objects.{
  codes, str_eq, View, Runtime, as_utf8, str_view, list_view, tuple_view,
}
use truenas_pyos.Filter.Path.{text_of, split_path}
use truenas_pyos.Filter.Ops.{OpCode, parse_op, SimpleFilter, c_casefold, is_none, op_re}
use truenas_pyos.Filter.Alias.{filter_max_depth, has_attr, resolve_alias_path}

-- compiled_filter_t, and the children of a compound node.
mutual
  pub data CompiledFilter (Obj : Type 0) : Type 0 where
    leaf : SimpleFilter Obj → CompiledFilter Obj
    or_node : Children Obj → CompiledFilter Obj
    and_node : Children Obj → CompiledFilter Obj

  pub data Children (Obj : Type 0) : Type 0 where
    nil : Children Obj
    cons : CompiledFilter Obj → Children Obj → Children Obj

unfoldable pub is_or_tag : {Obj : Type 0} → View Obj → Bool
is_or_tag (str_view s) = str_eq s (codes "OR")
is_or_tag _ = false

unfoldable pub is_sequence : {Obj : Type 0} → View Obj → Bool
is_sequence (list_view xs) = true
is_sequence (tuple_view xs) = true
is_sequence _ = false

module _ {Obj : Type 0} (py : Runtime Obj) (model : Obj) where
  -- The regex of an operator '~', compiled, and its bound `match`.
  unfoldable pub compile_regex : OpCode → Obj → Result (Option Obj)
  compile_regex op_re value = do
    pattern_obj ← py.re_compile value
    re_match ← py.getattr pattern_obj (codes "match")
    ok (some re_match)
  compile_regex _ value = ok none

  -- compile_simple
  unfoldable pub compile_simple : Obj → Result (CompiledFilter Obj)
  unfolding as_utf8 parse_op split_path resolve_alias_path c_casefold compile_regex is_none text_of
  compile_simple f = do
    name_obj ← py.get_item f 0
    op_obj ← py.get_item f 1
    value ← py.get_item f 2
    op_text ← text_of (py.view op_obj)
    op_str ← as_utf8 op_text
    parsed ← parse_op op_str
    split ← split_path py name_obj
    parts ← if is_none py model then ok split else resolve_alias_path py split (some model)
    value_ci ← if parsed.1 then (c_casefold py value >>= λ v. ok (some v)) else ok none
    re_match ← compile_regex parsed.0 value
    ok (
        leaf (record {
          parts = parts;
          op = parsed.0;
          ci = parsed.1;
          value = value;
          value_ci = value_ci;
          re_match = re_match;
        }))

  -- The loop over the items of a sequence from index j on, with `left` rounds left.
  unfoldable pub compile_children :
      (Obj → Result (CompiledFilter Obj)) → Obj → ℕ → ℕ → Result (Children Obj)
  compile_children child seq zero j = ok nil
  compile_children child seq (suc left) j = do
    sub ← py.get_item seq j
    c ← child sub
    rest ← compile_children child seq left (j + 1)
    ok (cons c rest)

  -- compile_and_branch; `child` is compile_filter one level deeper.
  unfoldable pub compile_and_branch :
      (Obj → Result (CompiledFilter Obj)) → Obj → Result (CompiledFilter Obj)
  unfolding compile_children
  compile_and_branch child branch = do
    nsubs ← py.size branch
    ch ← compile_children child branch nsubs 0
    ok (and_node ch)

  -- A branch of an OR: a conjunction if its first item is a list or a tuple.
  unfoldable pub compile_branch :
      (Obj → Result (CompiledFilter Obj)) → Obj → Result (CompiledFilter Obj)
  unfolding compile_and_branch is_sequence
  compile_branch child branch = do
    branch0 ← py.get_item branch 0
    if is_sequence (py.view branch0) then compile_and_branch child branch else child branch

  -- The body of compile_filter under its depth check.
  unfoldable pub compile_node :
      (Obj → Result (CompiledFilter Obj)) → Obj → Result (CompiledFilter Obj)
  unfolding compile_simple compile_branch compile_children is_or_tag
  compile_node child f =
      let or_filter : Result (CompiledFilter Obj) = do
        tag ← py.get_item f 0
        if not (is_or_tag (py.view tag)) then raise (value_error expected_or) else do
          branches ← py.get_item f 1
          nbranches ← py.size branches
          ch ← compile_children (compile_branch child) branches nbranches 0
          ok (or_node ch)
      in do
        flen ← py.size f
        if flen == 3
            then compile_simple f
            else if not (flen == 2)
            then raise (value_error bad_filter_length)
            else or_filter

  -- compile_filter with `left` levels to go: 65 at depth 0, none when `depth` is over
  -- FILTER_MAX_DEPTH.
  unfoldable pub compile_filter : ℕ → Obj → Result (CompiledFilter Obj)
  unfolding compile_node
  compile_filter zero f = raise recursion_error
  compile_filter (suc left) f = compile_node (compile_filter left) f

  -- The loop of py_compile_filters over the top-level filters.
  unfoldable pub compile_top : Obj → ℕ → ℕ → Result (List (CompiledFilter Obj))
  unfolding compile_filter
  compile_top filters zero i = ok []
  compile_top filters (suc left) i = do
    f ← py.get_item filters i
    c ← compile_filter (filter_max_depth + 1) f
    rest ← compile_top filters left (i + 1)
    ok (c ∷ rest)

  -- py_compile_filters, on its parsed arguments.
  unfoldable pub compile_filters : Obj → Result (List (CompiledFilter Obj))
  unfolding compile_top has_attr is_none
  compile_filters filters =
      let compiled : Result (List (CompiledFilter Obj)) = do
        nfilters ← py.size filters
        compile_top filters nfilters 0
      in if not (is_none py model) && not (has_attr py model (codes "__pydantic_fields__"))
        then raise type_error
        else if is_none py filters
        then ok []
        else compiled
