-- ===== src/Filter/AliasLaws.antt =====
-- src/cext/filter_utils/filter_list.c: resolve_alias_path for filters and resolve_alias_keys for
-- options agree.
use truenas_pyos.Prelude.{
  ℕ, ◌+◌, ◌≡◌, refl, ap, sym, ◌∙◌, inl, inr, Bool, true, false, not, ◌||◌, Option, none, some, List,
  [], ◌∷◌, map, All, if◌then◌else◌, Option-cases,
}
use truenas_pyos.Py.{Result, ok, raise, ◌>>=◌}
use truenas_pyos.Filter.Objects.{Str, codes, str_eq, Runtime}
use truenas_pyos.Filter.Path.{PathPart, wildcard, init_path_part}
use truenas_pyos.Filter.Alias.{
  filter_max_depth, is_some, unwrap_model_annotation, find_field_by_alias, model_allows_extra,
  resolve_alias_path, resolve_alias_keys,
}

-- A part as the options keep it: the key and its index.
abbrev pub key_of : PathPart → Str × Option ℕ
key_of p = (p.key, p.digit)

-- `is_wildcard` is set on the key "*" alone, and such a key has no index.
abbrev pub IsMarked : PathPart → Type 0
IsMarked p = p.is_wildcard ≡ str_eq p.key wildcard

or_comm : (a b : Bool) → (a || b) ≡ (b || a)
or_comm true true = refl
or_comm true false = refl
or_comm false true = refl
or_comm false false = refl

abbrev pub plain_part : Str → PathPart
plain_part name = record { key = name; is_wildcard = false; digit = none }

module _ {Obj : Type 0} (py : Runtime Obj) where
  -- The fields that a lookup finds are named by identifiers, so init_path_part makes plain keys of
  -- their names.
  abbrev pub FieldsAreNames : Type 0
  FieldsAreNames =
      (fields : Obj) (key : Str) (name : Str) (finfo : Obj)
      → find_field_by_alias py fields key ≡ ok (some (name, finfo))
      → init_path_part name ≡ ok (plain_part name)

  abbrev as_keys : Result (List PathPart) → Result (List (Str × Option ℕ))
  as_keys parts = parts >>= λ ps. ok (map key_of ps)

  as_keys->>= :
      {A : Type 0} (m : Result A) (f : A → Result (List PathPart))
      (g : A → Result (List (Str × Option ℕ)))
      → ((x : A) → m ≡ ok x → as_keys (f x) ≡ g x)
      → as_keys (m >>= f) ≡ (m >>= g)
  as_keys->>= (ok x) f g h = h x refl
  as_keys->>= (raise e) f g h = refl
  as_keys->>= Result.out_of_bounds f g h = refl

  as_keys-if :
      (b c : Bool) (m n : Result (List PathPart)) (m' n' : Result (List (Str × Option ℕ)))
      → b ≡ c
      → as_keys m ≡ m'
      → as_keys n ≡ n'
      → as_keys (if b then m else n) ≡ (if c then m' else n')
  as_keys-if b true m n m' n' e f g = rw e f
  as_keys-if b false m n m' n' e f g = rw e g

  -- A resolved part in front of the rest.
  as_keys-cons :
      (p : PathPart) (m : Result (List PathPart)) (m' : Result (List (Str × Option ℕ)))
      → as_keys m ≡ m'
      → as_keys (m >>= λ rest. ok (p ∷ rest)) ≡ (m' >>= λ rest. ok (key_of p ∷ rest))
  as_keys-cons p (ok ps) m' e = rw (sym e) refl
  as_keys-cons p (raise x) m' e = rw (sym e) refl
  as_keys-cons p Result.out_of_bounds m' e = rw (sym e) refl

  marked_test :
      (p : PathPart)
      → IsMarked p
      → (p.is_wildcard || is_some p.digit) ≡ (is_some p.digit || str_eq p.key wildcard)
  marked_test p h = rw h (or_comm (str_eq p.key wildcard) (is_some p.digit))

  -- The rest of a path in every model that an annotation may lead to.
  abbrev Later : List PathPart → Type 0
  Later ps =
      (model : Option Obj)
      → as_keys (resolve_alias_path py ps model) ≡ resolve_alias_keys py (map key_of ps) model

  resolved_part :
      (p : PathPart) (ps : List PathPart) (ann : Obj)
      → Later ps
      → as_keys (
          unwrap_model_annotation py (filter_max_depth + 1) ann >>= λ m.
          resolve_alias_path py ps m >>= λ rest. ok (p ∷ rest))
        ≡ (unwrap_model_annotation py (filter_max_depth + 1) ann >>= λ m.
            resolve_alias_keys py (map key_of ps) m >>= λ rest. ok (key_of p ∷ rest))
  resolved_part p ps ann later = as_keys->>= _ _ _ (λ m _. as_keys-cons p _ _ (later m))

  -- On the same path and model, the two give the same keys or raise the same exception.
  pub resolve_alias_keys-resolve_alias_path :
      FieldsAreNames
      → (ps : List PathPart) (model : Option Obj) → All IsMarked ps
      → as_keys (resolve_alias_path py ps model) ≡ resolve_alias_keys py (map key_of ps) model
  unfolding resolve_alias_path resolve_alias_keys
  resolve_alias_keys-resolve_alias_path names [] model h = refl
  resolve_alias_keys-resolve_alias_path names (p ∷ ps) none h = refl
  resolve_alias_keys-resolve_alias_path names (p ∷ ps) (some model) h =
      let later : Later ps = λ m. resolve_alias_keys-resolve_alias_path names ps m h.1 in
      as_keys-if _ _ _ _ _ _ (marked_test p h.0) (as_keys-cons p _ _ (later (some model))) (
        as_keys->>= (py.getattr model (codes "model_fields")) _ _ (λ fields _.
          as_keys-if (not (py.dict_check fields)) _ _ _ _ _ refl refl (
            as_keys->>= (find_field_by_alias py fields p.key) _ _ (λ found e.
              elim (Option-cases found) [
                | inl q ↦ rw q (
                    as_keys->>= (model_allows_extra py model) _ _
                      (λ allow _. as_keys-if allow _ _ _ _ _ refl refl refl))
                | inr (field, q) ↦ rw q (
                    as_keys->>= (py.getattr field.1 (codes "annotation")) _ _ (λ ann _.
                      rw (names fields p.key field.0 field.1 (e ∙ ap ok q))
                        (resolved_part (plain_part field.0) ps ann later)))
              ]))))
