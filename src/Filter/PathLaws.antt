-- ===== src/Filter/PathLaws.antt =====
-- Dotted paths: what `split_path` and `opt_split_keys` make of keys whose dots are escaped.
use truenas_pyos.Prelude.{
  ℕ, ◌≡◌, refl, ap, sym, ◌∙◌, inl, inr, false, List, [], ◌∷◌, ◌++◌, ◌==◌, if◌then◌else◌, Bool-cases,
  ==_iff,
}
use mathlib.Core.List.{append_assoc, append-nil}
use truenas_pyos.Filter.Objects.{Str, Runtime, str_view}
use truenas_pyos.Filter.Path.{
  dot, backslash, split_dots, ends_with_backslash, without_last, merge_pieces, path_keys,
  init_parts, index_keys, text_of, split_path, opt_split_keys,
}

-- A key with a backslash before each of its dots.
unfoldable pub escaped : Str → Str
escaped [] = []
escaped (c ∷ s) = if c == dot then backslash ∷ dot ∷ escaped s else c ∷ escaped s

-- Keys joined by dots, their own dots escaped.
unfoldable pub dotted : Str → List Str → Str
unfolding escaped
dotted k [] = escaped k
dotted k (l ∷ ks) = escaped k ++ (dot ∷ dotted l ks)

-- No key but the last ends with a backslash, which would escape the dot behind it.
abbrev pub IsJoinable : Str → List Str → Type 0
IsJoinable k [] = Unit
IsJoinable k (l ∷ ks) = (ends_with_backslash k ≡ false) × IsJoinable l ks

-- The merging of the pieces of a text, behind a piece that is begun with `seg`.
abbrev merge_from : Str → List Str → List Str
merge_from seg [] = merge_pieces seg []
merge_from seg (p ∷ ps) = merge_pieces (seg ++ p) ps

ends_with_backslash-snoc :
    (s : Str) (c : ℕ) → ends_with_backslash (s ++ (c ∷ [])) ≡ (c == backslash)
unfolding ends_with_backslash
ends_with_backslash-snoc [] c = refl
ends_with_backslash-snoc (d ∷ []) c = refl
ends_with_backslash-snoc (d ∷ e ∷ s) c = ends_with_backslash-snoc (e ∷ s) c

without_last-snoc : (s : Str) (c : ℕ) → without_last (s ++ (c ∷ [])) ≡ s
unfolding without_last
without_last-snoc [] c = refl
without_last-snoc (d ∷ []) c = refl
without_last-snoc (d ∷ e ∷ s) c = ap (λ l. d ∷ l) (without_last-snoc (e ∷ s) c)

split_dots-cons : (s : Str) → (p : Str) × (ps : List Str) × (split_dots s ≡ p ∷ ps)
unfolding split_dots
split_dots-cons [] = ([], [], refl)
split_dots-cons (c ∷ s) =
    let (p, ps, e) = split_dots-cons s in
    elim (Bool-cases (c == dot)) [
      | inl d ↦ ([], p ∷ ps, rw (d, e) refl)
      | inr d ↦ (c ∷ p, ps, rw (d, e) refl)
    ]

-- A piece that does not end with a backslash, with one more code point of the key's.
merge_from-key :
    (c : ℕ) (seg s : Str)
    → (c == dot) ≡ false
    → merge_from seg (split_dots (c ∷ s)) ≡ merge_from (seg ++ (c ∷ [])) (split_dots s)
unfolding split_dots
merge_from-key c seg s h =
    let (p, ps, e) = split_dots-cons s in
    rw (h, e) (ap (λ l. merge_pieces l ps) (sym (append_assoc seg (c ∷ []) p)))

merge_from-escaped_dot :
    (seg s : Str)
    → merge_from seg (split_dots (backslash ∷ dot ∷ s))
      ≡ merge_from (seg ++ (dot ∷ [])) (split_dots s)
unfolding split_dots merge_pieces
merge_from-escaped_dot seg s =
    let (p, ps, e) = split_dots-cons s in
    rw (e, merge_pieces, ends_with_backslash-snoc seg backslash, without_last-snoc seg backslash)
      (ap (λ l. merge_pieces l ps) (sym (append_assoc seg (dot ∷ []) p)))

merge_from-dot :
    (seg s : Str)
    → ends_with_backslash seg ≡ false
    → merge_from seg (split_dots (dot ∷ s)) ≡ seg ∷ merge_from [] (split_dots s)
unfolding split_dots merge_pieces
merge_from-dot seg s h =
    let (p, ps, e) = split_dots-cons s in
    let ends : ends_with_backslash (seg ++ []) ≡ false = rw (append-nil seg) h in
    rw (e, merge_pieces, ends) (ap (λ l. l ∷ merge_pieces p ps) (append-nil seg))

merge_from-escaped :
    (seg k rest : Str)
    → merge_from seg (split_dots (escaped k ++ rest)) ≡ merge_from (seg ++ k) (split_dots rest)
unfolding escaped
merge_from-escaped seg [] rest = rw (append-nil seg) refl
merge_from-escaped seg (c ∷ k) rest =
    let later : merge_from (seg ++ (c ∷ [])) (split_dots (escaped k ++ rest))
        ≡ merge_from (seg ++ (c ∷ k)) (split_dots rest) =
      merge_from-escaped (seg ++ (c ∷ [])) k rest
      ∙ ap (λ l. merge_from l (split_dots rest)) (append_assoc seg (c ∷ []) k) in
    elim (Bool-cases (c == dot)) [
      | inl d ↦
          rw (d, merge_from-escaped_dot seg (escaped k ++ rest), sym ((==_iff c dot).0 d)) later
      | inr d ↦ rw (d, merge_from-key c seg (escaped k ++ rest) d) later
    ]

merge_from-dotted :
    (k : Str) (ks : List Str) → IsJoinable k ks → merge_from [] (split_dots (dotted k ks)) ≡ k ∷ ks
unfolding dotted merge_pieces split_dots
merge_from-dotted k [] h =
    ap (λ s. merge_from [] (split_dots s)) (sym (append-nil (escaped k)))
    ∙ merge_from-escaped [] k []
    ∙ ap (λ s. s ∷ []) (append-nil k)
merge_from-dotted k (l ∷ ks) h =
    merge_from-escaped [] k (dot ∷ dotted l ks)
    ∙ merge_from-dot k (dotted l ks) h.0
    ∙ ap (λ r. k ∷ r) (merge_from-dotted l ks h.1)

path_keys-merge_from : (s : Str) → path_keys s ≡ merge_from [] (split_dots s)
unfolding path_keys
path_keys-merge_from s = let (p, ps, e) = split_dots-cons s in rw (path_keys, e) refl

-- Keys joined by dots, with a backslash before each dot of a key, are split into the same keys, if
-- none but the last ends with a backslash: where the object reads as that text, `split_path` returns
-- the parts of the keys, and `opt_split_keys` the keys with their indices.
pub split_path-dotted :
    {Obj : Type 0} (py : Runtime Obj) (name_obj : Obj) (k : Str) (ks : List Str)
    → IsJoinable k ks
    → py.view name_obj ≡ str_view (dotted k ks)
    → (path_keys (dotted k ks) ≡ k ∷ ks)
      × (split_path py name_obj ≡ init_parts (k ∷ ks))
      × (opt_split_keys py name_obj ≡ index_keys (k ∷ ks))
unfolding split_path opt_split_keys text_of
split_path-dotted py name_obj k ks h e =
    let keys = path_keys-merge_from (dotted k ks) ∙ merge_from-dotted k ks h in
    (keys, rw (e, keys) refl, rw (e, keys) refl)
