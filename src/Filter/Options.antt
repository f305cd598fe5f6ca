-- ===== src/Filter/Options.antt =====
-- src/cext/filter_utils: `compile_select_specs` and what `apply_options` does behind the projection
-- (filter_options.c), and `py_compile_options` (truenas_pyfilter.c).
use truenas_pyos.Prelude.{
  ℕ, zero, suc, ◌+◌, Bool, not, ◌&&◌, Option, none, some, List, [], ◌∷◌, length, take, drop, ◌==◌,
  if◌then◌else◌,
}
use truenas_pyos.Prelude.Int.{ℤ, pos, negsuc, ltb_ℤ, eqb_ℤ}
use truenas_pyos.Py.{
  Result, ok, raise, raise_if, value_error, type_error, bad_select_spec, get_with_limit,
  get_with_offset, limit_too_large, ◌>>=◌, ◌>>◌,
}
use truenas_pyos.Py.Sort.{ListSort}
use truenas_pyos.Filter.Objects.{
  Str, codes, View, Runtime, none_view, dict_view, other_view, str_view, list_view, tuple_view,
}
use truenas_pyos.Filter.Path.{opt_split_keys}
use truenas_pyos.Filter.Ops.{is_none}
use truenas_pyos.Filter.Alias.{resolve_alias_keys, has_attr}
use truenas_pyos.Filter.Order.{OrderSpec, compile_order_specs, apply_order}

-- compiled_select_spec_t
pub record SelectSpec : Type 0 where
  pub keys : List (Str × Option ℕ)
  pub rename : Option Str

-- CompiledOptionsObject, less the fields that are kept for introspection.
pub record CompiledOptions (Obj : Type 0) : Type 0 where
  pub get_flag : Bool
  pub count_flag : Bool
  pub shortcircuit : Bool
  pub select_specs : List SelectSpec
  pub order_specs : List OrderSpec
  pub offset : ℤ
  pub limit : ℤ
  pub model : Obj

-- The parsed arguments; `none` is an argument that is not given.
pub record OptionArgs (Obj : Type 0) : Type 0 where
  pub get_val : Bool
  pub count_val : Bool
  pub select_val : Option Obj
  pub order_by_val : Option Obj
  pub offset_val : ℤ
  pub limit_val : ℤ
  pub model_obj : Obj

-- What tnfilter returns: a count or a list.
pub data Answer (Obj : Type 0) : Type 0 where
  count_of : ℕ → Answer Obj
  items_of : List Obj → Answer Obj

-- The slice behind `offset` items, and the one of `limit` items: `None` of either is not positive.
abbrev pub behind_offset : {A : Type 0} → ℤ → List A → List A
behind_offset (pos n) xs = drop n xs
behind_offset (negsuc n) xs = xs

abbrev pub within_limit : {A : Type 0} → ℤ → List A → List A
within_limit (pos zero) xs = xs
within_limit (pos (suc n)) xs = take (suc n) xs
within_limit (negsuc n) xs = xs

-- A `str`, or none.
unfoldable pub as_text : {Obj : Type 0} → View Obj → Option Str
as_text (str_view s) = some s
as_text _ = none

module _ {Obj : Type 0} (py : Runtime Obj) where
  -- The target and the new name of a select spec that is a list or a tuple.
  unfoldable pub renamed_target : Obj → Result (Obj × Option Str)
  unfolding as_text
  renamed_target spec =
      let parts : Result (Obj × Option Str) = do
        target ← py.get_item spec 0
        rename ← py.get_item spec 1
        elim (as_text (py.view target)) [
          | none ↦ raise (value_error bad_select_spec)
          | some t ↦ elim (as_text (py.view rename)) [
            | none ↦ raise (value_error bad_select_spec)
            | some name ↦ ok (target, some name)
          ]
        ]
      in do n ← py.size spec; if n == 2 then parts else raise (value_error bad_select_spec)

  -- The target of a select spec and its new name, if it has one.
  unfoldable pub select_target : Obj → Result (Obj × Option Str)
  unfolding renamed_target
  select_target spec = elim (py.view spec) [
    | str_view s ↦ ok (spec, none)
    | list_view xs ↦ renamed_target spec
    | tuple_view xs ↦ renamed_target spec
    | none_view ↦ raise type_error
    | dict_view ↦ raise type_error
    | other_view ↦ raise type_error
  ]

  -- One round of compile_select_specs.
  unfoldable pub compile_select_spec : Obj → Obj → Result SelectSpec
  unfolding select_target opt_split_keys resolve_alias_keys is_none
  compile_select_spec model spec = do
    target ← select_target spec
    split ← opt_split_keys py target.0
    keys ← if is_none py model then ok split else resolve_alias_keys py split (some model)
    ok (record { keys = keys; rename = target.1 })

  -- The loop of compile_select_specs from index si on, with `left` rounds left.
  unfoldable pub select_specs_from : Obj → Obj → ℕ → ℕ → Result (List SelectSpec)
  unfolding compile_select_spec
  select_specs_from model select zero si = ok []
  select_specs_from model select (suc left) si = do
    item ← py.get_item select si
    spec ← compile_select_spec model item
    specs ← select_specs_from model select left (si + 1)
    ok (spec ∷ specs)

  -- compile_select_specs
  unfoldable pub compile_select_specs : Obj → Obj → Result (List SelectSpec)
  unfolding select_specs_from
  compile_select_specs select model = do
    nspecs ← py.size select
    select_specs_from model select nspecs 0

  -- The specs of an argument that is given, is not `None` and is not empty.
  unfoldable pub given_specs : {A : Type 0} → Option Obj → (Obj → Result (List A)) → Result (List A)
  unfolding is_none
  given_specs none compile = ok []
  given_specs (some arg) compile =
      let specs = py.size arg >>= λ oblen. if oblen == 0 then ok [] else compile arg in
      if is_none py arg then ok [] else specs

  -- py_compile_options, on its parsed arguments
  unfoldable pub compile_options : OptionArgs Obj → Result (CompiledOptions Obj)
  unfolding is_none has_attr given_specs compile_select_specs compile_order_specs
  compile_options args =
      let specs : Result (CompiledOptions Obj) = do
        select_specs ← given_specs args.select_val (λ v. compile_select_specs v args.model_obj)
        order_specs ← given_specs args.order_by_val (λ v. compile_order_specs py v args.model_obj)
        ok (record {
          get_flag = args.get_val;
          count_flag = args.count_val;
          shortcircuit = args.get_val && length order_specs == 0;
          select_specs = select_specs;
          order_specs = order_specs;
          offset = args.offset_val;
          limit = args.limit_val;
          model = args.model_obj;
        })
      in raise_if
          (not (is_none py args.model_obj)
            && not (has_attr py args.model_obj (codes "__pydantic_fields__")))
          type_error
        >> raise_if (args.get_val && ltb_ℤ (pos 1) args.limit_val) (value_error get_with_limit)
        >> raise_if (args.get_val && not (eqb_ℤ args.offset_val (pos 0)))
            (value_error get_with_offset)
        >> raise_if (ltb_ℤ (pos 10000) args.limit_val) (value_error limit_too_large)
        >> specs

  -- apply_options behind the projection: count, order, offset and limit.
  unfoldable pub finish_options :
      ListSort (Obj × ℤ) → CompiledOptions Obj → List Obj → Result (Answer Obj)
  unfolding apply_order
  finish_options list_sort co rv =
      let page : Result (Answer Obj) = do
        ordered ← apply_order py list_sort co.order_specs rv
        ok (items_of (within_limit co.limit (behind_offset co.offset ordered)))
      in if co.count_flag then ok (count_of (length rv)) else page
