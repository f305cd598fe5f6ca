-- ===== src/Filter/Alias.antt =====
-- src/cext/filter_utils/filter_list.c: the aliases of a pydantic model, resolved when a filter or an
-- option is compiled.
use truenas_pyos.Prelude.{
  ℕ, zero, suc, ◌+◌, Bool, true, false, not, ◌&&◌, ◌||◌, Option, none, some, List, [], ◌∷◌,
  if◌then◌else◌,
}
use truenas_pyos.Py.{Result, ok, raise, value_error, unknown_field, ◌>>=◌}
use truenas_pyos.Filter.Objects.{
  Str, codes, str_eq, View, Runtime, found_attr, str_view, tuple_view, py_eq,
}
use truenas_pyos.Filter.Path.{PathPart, wildcard, init_path_part}
use truenas_pyos.Filter.Ops.{is_none}

abbrev pub filter_max_depth : ℕ
filter_max_depth = 64

abbrev pub is_some : Option ℕ → Bool
is_some none = false
is_some (some n) = true

module _ {Obj : Type 0} (py : Runtime Obj) where
  -- PyObject_HasAttr: any exception of the lookup is dropped, and means no.
  unfoldable pub has_attr : Obj → Str → Bool
  has_attr obj name = elim (py.getattr obj name) [ ok v ↦ true | _ ↦ false ]

  -- The first answer of a loop that stops at the first hit.
  abbrev pub first_hit : (Obj → Result (Option Obj)) → List Obj → Result (Option Obj)
  first_hit f [] = ok none
  first_hit f (x ∷ xs) =
      let rest = first_hit f xs in f x >>= λ hit. elim hit [ some m ↦ ok (some m) | none ↦ rest ]

  -- unwrap_model_annotation with `left` levels to go: it is called with 65 of them, and `depth` is
  -- over FILTER_MAX_DEPTH when none is left.
  unfoldable pub unwrap_model_annotation : ℕ → Obj → Result (Option Obj)
  unfolding has_attr found_attr is_none
  unwrap_model_annotation zero ann = ok none
  unwrap_model_annotation (suc left) ann =
      if is_none py ann
      then ok none
      else if py.type_check ann && has_attr ann (codes "__pydantic_fields__")
      then ok (some ann)
      else do
        args ← found_attr (py.getattr ann (codes "__args__"))
        elim args [
          | none ↦ ok none
          | some a ↦ elim (py.view a) [
            | tuple_view items ↦ first_hit (unwrap_model_annotation left) items
            | _ ↦ ok none
          ]
        ]

  -- The loop of find_field_by_alias over the aliases.
  unfoldable pub find_alias : List (Str × Obj) → Str → Result (Option (Str × Obj))
  unfolding is_none
  find_alias [] key = ok none
  find_alias ((fname, finfo) ∷ fields) key =
      let rest = find_alias fields key in
      do
        alias ← py.getattr finfo (codes "alias")
        let compared = py.compare py_eq alias (py.str_obj key)
        eq ← if is_none py alias then ok false else compared
        if eq then ok (some (fname, finfo)) else rest

  -- find_field_by_alias: an alias first, then the field's own name.
  unfoldable pub find_field_by_alias : Obj → Str → Result (Option (Str × Obj))
  unfolding find_alias
  find_field_by_alias fields key = do
    found ← find_alias (py.dict_items fields) key
    elim found [
      | some field ↦ ok (some field)
      | none ↦ py.dict_get fields key >>= λ own. elim own [
        | none ↦ ok none
        | some finfo ↦ ok (some (key, finfo))
      ]
    ]

  unfoldable pub is_allow : View Obj → Bool
  is_allow (str_view s) = str_eq s (codes "allow")
  is_allow _ = false

  -- model_allows_extra. PyDict_GetItemString drops an exception of the lookup.
  unfoldable pub model_allows_extra : Obj → Result Bool
  unfolding found_attr is_allow
  model_allows_extra model = do
    config ← found_attr (py.getattr model (codes "model_config"))
    elim config [
      | none ↦ ok false
      | some c ↦
          if py.dict_check c
          then elim (py.dict_get c (codes "extra")) [
            | ok (some extra) ↦ ok (is_allow (py.view extra))
            | _ ↦ ok false
          ]
          else ok false
    ]

  -- resolve_alias_path from a component on, in the model reached so far; `none` is a NULL cur_model,
  -- which leaves the tail as it is.
  unfoldable pub resolve_alias_path : List PathPart → Option Obj → Result (List PathPart)
  unfolding find_field_by_alias model_allows_extra unwrap_model_annotation init_path_part
  resolve_alias_path [] model = ok []
  resolve_alias_path (p ∷ ps) none = ok (p ∷ ps)
  resolve_alias_path (p ∷ ps) (some model) =
      let kept : Result (List PathPart) = (do
        rest ← resolve_alias_path ps (some model)
        ok (p ∷ rest)) in
      let resolved : Result (List PathPart) = do
        fields ← py.getattr model (codes "model_fields")
        if not (py.dict_check fields) then ok (p ∷ ps) else do
          found ← find_field_by_alias fields p.key
          elim found [
            | none ↦ do
              allow_extra ← model_allows_extra model
              if allow_extra then ok (p ∷ ps) else raise (value_error (unknown_field p.key))
            | some (name, finfo) ↦ do
              ann ← py.getattr finfo (codes "annotation")
              part ← init_path_part name
              next_model ← unwrap_model_annotation (filter_max_depth + 1) ann
              rest ← resolve_alias_path ps next_model
              ok (part ∷ rest)
          ]
      in if p.is_wildcard || is_some p.digit then kept else resolved

  -- resolve_alias_keys, the same over keys and their indices.
  unfoldable pub resolve_alias_keys :
      List (Str × Option ℕ) → Option Obj → Result (List (Str × Option ℕ))
  unfolding find_field_by_alias model_allows_extra unwrap_model_annotation
  resolve_alias_keys [] model = ok []
  resolve_alias_keys ((k, i) ∷ ks) none = ok ((k, i) ∷ ks)
  resolve_alias_keys ((k, i) ∷ ks) (some model) =
      let kept : Result (List (Str × Option ℕ)) = do
        rest ← resolve_alias_keys ks (some model)
        ok ((k, i) ∷ rest)
      in let resolved : Result (List (Str × Option ℕ)) = do
        fields ← py.getattr model (codes "model_fields")
        if not (py.dict_check fields) then ok ((k, i) ∷ ks) else do
          found ← find_field_by_alias fields k
          elim found [
            | none ↦ do
              allow_extra ← model_allows_extra model
              if allow_extra then ok ((k, i) ∷ ks) else raise (value_error (unknown_field k))
            | some (name, finfo) ↦ do
              ann ← py.getattr finfo (codes "annotation")
              next_model ← unwrap_model_annotation (filter_max_depth + 1) ann
              rest ← resolve_alias_keys ks next_model
              ok ((name, none) ∷ rest)
          ]
        in if is_some i || str_eq k wildcard then kept else resolved
