-- ===== src/Filter/Eval.antt =====
-- src/cext/filter_utils/filter_list.c: the run of compiled filters over items.
use truenas_pyos.Prelude.{
  ℕ, ◌+◌, Bool, true, false, ◌||◌, Option, none, some, List, [], ◌∷◌, length, get_elem?, ltb, ◌==◌,
  if◌then◌else◌,
}
use truenas_pyos.Py.{Result, ok, raise, type_error, recursion_error, Exc, ◌>>=◌, ◌>>◌}
use truenas_pyos.Filter.Objects.{
  codes, View, Runtime, found_attr, none_view, dict_view, other_view, str_view, list_view,
  tuple_view,
}
use truenas_pyos.Filter.Path.{PathPart}
use truenas_pyos.Filter.Ops.{SimpleFilter, is_none, apply_op}
use truenas_pyos.Filter.Alias.{filter_max_depth}
use truenas_pyos.Filter.Compile.{CompiledFilter, Children, leaf, or_node, and_node, nil, cons}

-- The single-entry cache of fl_state_t.
pub record TypeCache (Obj : Type 0) : Type 0 where
  pub pyd_cache_type : Option Obj
  pub pyd_cache_verdict : Bool

-- An iteration: the items that PyIter_Next returns in turn, and the exception that ends it, if one
-- does.
pub record Iteration (Obj : Type 0) : Type 0 where
  pub items : List Obj
  pub ending : Option Exc

module _ {Obj : Type 0} (py : Runtime Obj) where
  -- The verdict on a type: the attribute probe of fl_type_is_pydantic.
  unfoldable pub is_model_type : Obj → Bool
  is_model_type tp = elim (py.type_lookup tp (codes "__pydantic_fields__")) [
    | none ↦ false
    | some f ↦ true
  ]

  -- fl_type_is_pydantic
  unfoldable pub fl_type_is_pydantic : Obj → TypeCache Obj → Bool × TypeCache Obj
  unfolding is_model_type
  fl_type_is_pydantic tp cache =
      let probed : Bool × TypeCache Obj = (
        is_model_type tp,
        record { pyd_cache_type = some tp; pyd_cache_verdict = is_model_type tp },
      ) in
      elim cache.pyd_cache_type [
        | none ↦ probed
        | some cached ↦ if py.same tp cached then (cache.pyd_cache_verdict, cache) else probed
      ]

  -- The wildcard loop: it goes on while the answer is 0.
  abbrev pub any_match : (Obj → Result Bool) → List Obj → Result Bool
  any_match f [] = ok false
  any_match f (x ∷ xs) = let rest = any_match f xs in f x >>= λ b. if b then ok true else rest

  abbrev pub item_or_none : List Obj → ℕ → Obj
  item_or_none xs n = elim (get_elem? xs n) [ none ↦ py.none_obj | some v ↦ v ]

  -- The value that an optional lookup finds, or the answer without one.
  abbrev pub and_then : Result (Option Obj) → Result Bool → (Obj → Result Bool) → Result Bool
  and_then found absent next = found >>= λ hit. elim hit [ none ↦ absent | some v ↦ next v ]

  -- The loop of eval_simple_from over the parts that are left. The cache never changes a verdict, so
  -- the verdict stands for the call of fl_type_is_pydantic.
  unfoldable pub eval_parts : SimpleFilter Obj → List PathPart → Obj → Result Bool
  unfolding apply_op found_attr is_model_type
  eval_parts sf [] cur = apply_op py sf cur
  eval_parts sf (pp ∷ ps) cur =
      let attr = found_attr (py.getattr cur pp.key) in
      let on_object = and_then attr (apply_op py sf cur) (eval_parts sf ps) in
      let on_items : List Obj → Result Bool = λ xs.
        if pp.is_wildcard then any_match (eval_parts sf ps) xs else elim pp.digit [
          | some n ↦ eval_parts sf ps (item_or_none xs n)
          | none ↦ and_then attr (ok false) (eval_parts sf ps)
        ] in
      let on_model : Result Bool = elim (py.instance_dict cur) [
        | none ↦ on_object
        | some d ↦ and_then (py.dict_get d pp.key) on_object (eval_parts sf ps)
      ] in
      elim (py.view cur) [
        | dict_view ↦ and_then (py.dict_get cur pp.key) (ok false) (eval_parts sf ps)
        | list_view xs ↦ on_items xs
        | tuple_view xs ↦ on_items xs
        | none_view ↦ if is_model_type (py.type_of cur) then on_model else on_object
        | str_view s ↦ if is_model_type (py.type_of cur) then on_model else on_object
        | other_view ↦ if is_model_type (py.type_of cur) then on_model else on_object
      ]

  unfoldable pub is_dict : View Obj → Bool
  is_dict dict_view = true
  is_dict _ = false

  -- eval_simple_from at start 0: the path of one key in an exact dict first.
  unfoldable pub eval_simple_from : SimpleFilter Obj → List PathPart → Obj → Result Bool
  unfolding eval_parts is_dict apply_op
  eval_simple_from sf [] item = eval_parts sf [] item
  eval_simple_from sf (p ∷ []) item =
      if is_dict (py.view item)
      then and_then (py.dict_get item p.key) (ok false) (apply_op py sf)
      else eval_parts sf (p ∷ []) item
  eval_simple_from sf (p ∷ q ∷ ps) item = eval_parts sf (p ∷ q ∷ ps) item

  -- eval_filter at a depth, with its loops over the children of an OR and of an AND.
  unfoldable mutual
    unfolding eval_simple_from

    pub eval_filter : Obj → CompiledFilter Obj → ℕ → Result Bool
    eval_filter item (leaf sf) depth =
        if ltb filter_max_depth depth
        then raise recursion_error
        else eval_simple_from sf sf.parts item
    eval_filter item (or_node ch) depth =
        let answer = eval_or item ch depth in
        if ltb filter_max_depth depth then raise recursion_error else answer
    eval_filter item (and_node ch) depth =
        let answer = eval_and item ch depth in
        if ltb filter_max_depth depth then raise recursion_error else answer

    pub eval_or : Obj → Children Obj → ℕ → Result Bool
    eval_or item nil depth = ok false
    eval_or item (cons c cs) depth =
        let rest = eval_or item cs depth in
        eval_filter item c (depth + 1) >>= λ r. if r then ok true else rest

    pub eval_and : Obj → Children Obj → ℕ → Result Bool
    eval_and item nil depth = ok true
    eval_and item (cons c cs) depth =
        let rest = eval_and item cs depth in
        eval_filter item c (depth + 1) >>= λ r. if r then rest else ok false

  -- check_item_model; `ok tt` is its 1.
  unfoldable pub check_item_model : Obj → Obj → ℕ → Result (Unit {0})
  unfolding is_model_type is_none
  check_item_model item model nfilters =
      let pydantic = is_model_type (py.type_of item) in
      let is_normalized : Bool = elim (py.type_lookup model (codes "__normalize_as__")) [
        | none ↦ false
        | some norm ↦ py.same (py.type_of item) norm
      ] in
      if nfilters == 0
      then ok tt
      else if is_none py model
      then if pydantic then raise type_error else ok tt
      else if py.same (py.type_of item) model || is_normalized
      then ok tt
      else if pydantic
      then raise type_error
      else ok tt

  -- The loop over the compiled filters, at one item.
  unfoldable pub eval_all : List (CompiledFilter Obj) → Obj → Result Bool
  unfolding eval_filter
  eval_all [] item = ok true
  eval_all (c ∷ cs) item =
      let rest = eval_all cs item in eval_filter item c 0 >>= λ r. if r then rest else ok false

  -- The loop of filter_list_run over the items.
  unfoldable pub run_items :
      List (CompiledFilter Obj) → Bool → Obj → Option Exc → List Obj → Result (List Obj)
  unfolding check_item_model eval_all
  run_items compiled shortcircuit model ending [] = elim ending [ none ↦ ok [] | some e ↦ raise e ]
  run_items compiled shortcircuit model ending (item ∷ items) =
      let rest = run_items compiled shortcircuit model ending items in
      do
        check_item_model item model (length compiled)
        matched ← eval_all compiled item
        if matched
            then if shortcircuit then ok (item ∷ []) else (rest >>= λ found. ok (item ∷ found))
            else rest

  -- filter_list_run; `data` is what PyObject_GetIter gives for the argument.
  unfoldable pub filter_list_run :
      Result (Iteration Obj) → List (CompiledFilter Obj) → Bool → Obj → Result (List Obj)
  unfolding run_items
  filter_list_run iter compiled shortcircuit model =
      iter >>= λ it. run_items compiled shortcircuit model it.ending it.items

  -- match_item
  unfoldable pub match_item : Obj → List (CompiledFilter Obj) → Obj → Result Bool
  unfolding check_item_model eval_all
  match_item item compiled model =
      check_item_model item model (length compiled) >> eval_all compiled item
