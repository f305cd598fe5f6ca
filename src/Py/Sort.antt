-- ===== src/Py/Sort.antt =====
-- `PyList_Sort`, which is CPython's: a parameter, with what its documentation says of it. A sort by
-- insertion shows that the documentation can be met.
use mathlib.Core.List.{Permᴰ}
use mathlib.Core.Path.{subst}
use truenas_pyos.Prelude.{
  ℕ, suc, ◌≤◌, ◌≡◌, refl, ap, ◌∙◌, Bool, List, [], ◌∷◌, ltb, ◌==◌, filter, All, length,
}
use truenas_pyos.Py.{Result, ok}

module _ {A : Type 0} where
  abbrev pub IsSortedBy : (A → ℕ) → List A → Type 0
  IsSortedBy key [] = Unit
  IsSortedBy key (x ∷ xs) = All (λ y. key x ≤ key y) xs × IsSortedBy key xs

  -- The comparison of any two elements returns, and is that of the keys.
  abbrev pub ComparesBy : (A → A → Result Bool) → (A → ℕ) → List A → Type 0
  ComparesBy lt key xs = All (λ x. All (λ y. lt x y ≡ ok (ltb (key x) (key y))) xs) xs

  pub All-perm : (P : A → Type 0) {xs ys : List A} → Permᴰ xs ys → All P xs → All P ys
  All-perm P Permᴰ.nil h = h
  All-perm P (Permᴰ.cons e p) h = (subst P e h.0, All-perm P p h.1)
  All-perm P (Permᴰ.swap e f) h = (subst P f h.1.0, (subst P e h.0, h.1.1))
  All-perm P (Permᴰ.trans p q) h = All-perm P q (All-perm P p h)

  pub length-perm : {xs ys : List A} → Permᴰ xs ys → length xs ≡ length ys
  length-perm Permᴰ.nil = refl
  length-perm (Permᴰ.cons e p) = ap suc (length-perm p)
  length-perm (Permᴰ.swap e f) = refl
  length-perm (Permᴰ.trans p q) = length-perm p ∙ length-perm q

  -- `ys` is what a stable sort by `key` makes of `xs`.
  pub record IsStableSort (key : A → ℕ) (xs ys : List A) : Type 0 where
    pub rearranged : Permᴰ xs ys
    pub sorted : IsSortedBy key ys
    pub stable : (k : ℕ) → filter (λ x. key x == k) ys ≡ filter (λ x. key x == k) xs

-- A list sort by `<`: where the elements compare as their keys do, it succeeds, and is stable.
pub record ListSort (A : Type 0) : Type 0 where
  pub sort : (A → A → Result Bool) → List A → Result (List A)
  pub sort_by :
      (lt : A → A → Result Bool) (key : A → ℕ) (xs : List A)
      → ComparesBy lt key xs
      → (ys : List A) × (sort lt xs ≡ ok ys) × IsStableSort key xs ys
