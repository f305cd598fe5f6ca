-- ===== src/Filter/EvalLaws.antt =====
-- src/cext/filter_utils/filter_list.c: the shortcuts of eval_simple_from, and the cache of
-- fl_type_is_pydantic.
use truenas_pyos.Prelude.{
  ◌≡◌, refl, ap, sym, ◌∙◌, ◌⊎◌, inl, inr, Bool, true, false, Option, none, some, List, [], ◌∷◌, map,
  if◌then◌else◌, Bool-cases, Option-cases,
}
use mathlib.Core.Path.{fun_ext}
use truenas_pyos.Py.{Result, ok}
use truenas_pyos.Filter.Objects.{
  Str, View, Runtime, found_attr, none_view, dict_view, other_view, str_view, list_view, tuple_view,
}
use truenas_pyos.Filter.Path.{PathPart}
use truenas_pyos.Filter.Ops.{SimpleFilter, apply_op}
use truenas_pyos.Filter.Eval.{
  TypeCache, is_model_type, fl_type_is_pydantic, any_match, item_or_none, and_then, eval_parts,
  is_dict, eval_simple_from,
}

module _ {Obj : Type 0} (py : Runtime Obj) where
  -- The shortcut of eval_simple_from for one key in an exact dict, and its general loop, give the
  -- same answer at every item, a missing key and an exception included.
  pub eval_simple_from-eval_parts :
      (sf : SimpleFilter Obj) (ps : List PathPart) (item : Obj)
      → eval_simple_from py sf ps item ≡ eval_parts py sf ps item
  unfolding eval_simple_from eval_parts is_dict
  eval_simple_from-eval_parts sf [] item = refl
  eval_simple_from-eval_parts sf (p ∷ q ∷ ps) item = refl
  eval_simple_from-eval_parts sf (p ∷ []) item = one_key (py.view item) refl
    where
      one_key :
          (v : View Obj)
          → py.view item ≡ v
          → (if is_dict py v
              then and_then py (py.dict_get item p.key) (ok false) (apply_op py sf)
              else eval_parts py sf (p ∷ []) item)
            ≡ eval_parts py sf (p ∷ []) item
      one_key dict_view e = rw (eval_parts, e) refl
      one_key none_view e = refl
      one_key other_view e = refl
      one_key (str_view s) e = refl
      one_key (list_view xs) e = refl
      one_key (tuple_view xs) e = refl

  -- A lookup in the cache, and the lookups of a whole run.
  abbrev pub lookups : List Obj → TypeCache Obj → List Bool × TypeCache Obj
  lookups [] cache = ([], cache)
  lookups (tp ∷ tps) cache =
      let (verdict, next) = fl_type_is_pydantic py tp cache in
      let (verdicts, last) = lookups tps next in (verdict ∷ verdicts, last)

  -- What the cache holds is the verdict on the type it names.
  abbrev pub IsSound : TypeCache Obj → Type 0
  IsSound cache =
      (tp : Obj) → cache.pyd_cache_type ≡ some tp → cache.pyd_cache_verdict ≡ is_model_type py tp

  abbrev cached : Option Obj → Bool → TypeCache Obj
  cached tp verdict = record { pyd_cache_type = tp; pyd_cache_verdict = verdict }

  cached-IsSound :
      (same_eq : (x y : Obj) → py.same x y ≡ true → x ≡ y) (tp : Obj) (held : Option Obj)
      (verdict : Bool)
      → IsSound (cached held verdict)
      → ((fl_type_is_pydantic py tp (cached held verdict)).0 ≡ is_model_type py tp)
        × IsSound (fl_type_is_pydantic py tp (cached held verdict)).1
  unfolding fl_type_is_pydantic
  cached-IsSound same_eq tp none verdict h = (refl, λ tp' e. cc)
  cached-IsSound same_eq tp (some c) verdict h = elim (Bool-cases (py.same tp c)) [
    | inl e ↦ rw e (h c refl ∙ ap (is_model_type py) (sym (same_eq tp c e)), h)
    | inr e ↦ rw e (refl, λ tp' e'. cc)
  ]

  -- From a cache whose verdict is that on its type, such as the empty one of a reset, every lookup of
  -- a run returns the verdict on its own type, and the cache that is left is again such a one. Two
  -- objects that are the same pointer are equal.
  pub lookups-IsSound :
      (same_eq : (x y : Obj) → py.same x y ≡ true → x ≡ y) (tps : List Obj) (cache : TypeCache Obj)
      → IsSound cache
      → ((lookups tps cache).0 ≡ map (is_model_type py) tps) × IsSound (lookups tps cache).1
  lookups-IsSound same_eq [] cache h = (refl, h)
  lookups-IsSound same_eq (tp ∷ tps) cache h =
      let one = cached-IsSound same_eq tp cache.pyd_cache_type cache.pyd_cache_verdict h in
      let more = lookups-IsSound same_eq tps (fl_type_is_pydantic py tp cache).1 one.1 in
      (rw (one.0, more.0) refl, more.1)

module _ {Obj : Type 0} (py : Runtime Obj) where
  -- The loop without the shortcut for models: any object that is no dict, list or tuple is read by
  -- getattr.
  unfoldable pub eval_plain : SimpleFilter Obj → List PathPart → Obj → Result Bool
  eval_plain sf [] cur = apply_op py sf cur
  eval_plain sf (pp ∷ ps) cur =
      let attr = found_attr (py.getattr cur pp.key) in
      let on_object = and_then py attr (apply_op py sf cur) (eval_plain sf ps) in
      let on_items : List Obj → Result Bool = λ xs.
        if pp.is_wildcard then any_match py (eval_plain sf ps) xs else elim pp.digit [
          | some n ↦ eval_plain sf ps (item_or_none py xs n)
          | none ↦ and_then py attr (ok false) (eval_plain sf ps)
        ] in
      elim (py.view cur) [
        | dict_view ↦ and_then py (py.dict_get cur pp.key) (ok false) (eval_plain sf ps)
        | list_view xs ↦ on_items xs
        | tuple_view xs ↦ on_items xs
        | none_view ↦ on_object
        | str_view s ↦ on_object
        | other_view ↦ on_object
      ]

  -- What `__dict__` of an object holds is what getattr gives for it.
  abbrev pub DictAgrees : Type 0
  DictAgrees =
      (cur d : Obj) (key : Str)
      → py.instance_dict cur ≡ some d
      → (py.dict_get d key ≡ ok none)
        ⊎ (v : Obj) × (py.dict_get d key ≡ ok (some v)) × (py.getattr cur key ≡ ok v)

  -- A round of either loop, `model` telling whether the shortcut is taken.
  abbrev round_of :
      Bool → (Obj → Result Bool) → SimpleFilter Obj → PathPart → Obj → View Obj → Result Bool
  round_of model next sf pp cur v =
      let attr = found_attr (py.getattr cur pp.key) in
      let on_object = and_then py attr (apply_op py sf cur) next in
      let on_items : List Obj → Result Bool = λ xs.
        if pp.is_wildcard then any_match py next xs else elim pp.digit [
          | some n ↦ next (item_or_none py xs n)
          | none ↦ and_then py attr (ok false) next
        ] in
      let on_model : Result Bool = elim (py.instance_dict cur) [
        | none ↦ on_object
        | some d ↦ and_then py (py.dict_get d pp.key) on_object next
      ] in
      elim v [
        | dict_view ↦ and_then py (py.dict_get cur pp.key) (ok false) next
        | list_view xs ↦ on_items xs
        | tuple_view xs ↦ on_items xs
        | none_view ↦ if model then on_model else on_object
        | str_view s ↦ if model then on_model else on_object
        | other_view ↦ if model then on_model else on_object
      ]

  eval_parts-round_of :
      (sf : SimpleFilter Obj) (pp : PathPart) (ps : List PathPart) (cur : Obj)
      → eval_parts py sf (pp ∷ ps) cur
        ≡ round_of (is_model_type py (py.type_of cur)) (eval_parts py sf ps) sf pp cur (py.view cur)
  unfolding eval_parts
  eval_parts-round_of sf pp ps cur = refl

  eval_plain-round_of :
      (sf : SimpleFilter Obj) (pp : PathPart) (ps : List PathPart) (cur : Obj)
      → eval_plain sf (pp ∷ ps) cur ≡ round_of false (eval_plain sf ps) sf pp cur (py.view cur)
  unfolding eval_plain
  eval_plain-round_of sf pp ps cur = refl

  on_model-on_object :
      DictAgrees
      → (cur : Obj) (key : Str) (absent : Result Bool) (next : Obj → Result Bool)
      → (elim (py.instance_dict cur) as (λ _. Result Bool) [
        | none ↦ and_then py (found_attr (py.getattr cur key)) absent next
        | some d ↦
            and_then py
              (py.dict_get d key)
              (and_then py (found_attr (py.getattr cur key)) absent next)
              next
      ])
        ≡ and_then py (found_attr (py.getattr cur key)) absent next
  unfolding found_attr
  on_model-on_object agrees cur key absent next = elim (Option-cases (py.instance_dict cur)) [
    | inl e ↦ rw e refl
    | inr (d, e) ↦ elim (agrees cur d key e) [
      | inl n ↦ rw (e, n) refl
      | inr (v, f, g) ↦ rw (e, f, g) refl
    ]
  ]

  round_of-plain :
      DictAgrees
      → (model : Bool) (next : Obj → Result Bool) (sf : SimpleFilter Obj) (pp : PathPart)
        (cur : Obj) (v : View Obj)
      → round_of model next sf pp cur v ≡ round_of false next sf pp cur v
  round_of-plain agrees false next sf pp cur v = refl
  round_of-plain agrees true next sf pp cur none_view =
      on_model-on_object agrees cur pp.key (apply_op py sf cur) next
  round_of-plain agrees true next sf pp cur (str_view s) =
      on_model-on_object agrees cur pp.key (apply_op py sf cur) next
  round_of-plain agrees true next sf pp cur other_view =
      on_model-on_object agrees cur pp.key (apply_op py sf cur) next
  round_of-plain agrees true next sf pp cur dict_view = refl
  round_of-plain agrees true next sf pp cur (list_view xs) = refl
  round_of-plain agrees true next sf pp cur (tuple_view xs) = refl

  -- Where the instance dict of an object agrees with getattr, the shortcut through it for models does
  -- not change the answer, exceptions included.
  pub eval_parts-eval_plain :
      DictAgrees
      → (sf : SimpleFilter Obj) (ps : List PathPart) (cur : Obj)
      → eval_parts py sf ps cur ≡ eval_plain sf ps cur
  unfolding eval_parts eval_plain
  eval_parts-eval_plain agrees sf [] cur = refl
  eval_parts-eval_plain agrees sf (pp ∷ ps) cur =
      let later = fun_ext (eval_parts-eval_plain agrees sf ps) in
      let model = is_model_type py (py.type_of cur) in
      eval_parts-round_of sf pp ps cur
      ∙ ap (λ next. round_of model next sf pp cur (py.view cur)) later
      ∙ round_of-plain agrees model (eval_plain sf ps) sf pp cur (py.view cur)
