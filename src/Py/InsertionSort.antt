-- ===== src/Py/InsertionSort.antt =====
-- A list sort that meets `ListSort`: insertion from the right, each element before its equals.
use mathlib.Core.List.{Permᴰ}
use mathlib.Core.List.Permᴰ
use truenas_pyos.Prelude.{
  ℕ, ◌≤◌, ◌≡◌, refl, ap, ◌∙◌, Bool, List, [], ◌∷◌, ltb, ◌==◌, filter, All, arith, if◌then◌else◌,
  Bool-cases, inl, inr,
}
use truenas_pyos.Py.{Result, ok, ◌>>=◌}
use truenas_pyos.Py.Sort.{IsSortedBy, ComparesBy, ListSort, All-perm}

module _ {A : Type 0} where
  insert : (A → A → Result Bool) → A → List A → Result (List A)
  insert lt x [] = ok (x ∷ [])
  insert lt x (y ∷ ys) = do
    before ← lt y x
    let rest = insert lt x ys
    if before then (rest >>= λ zs. ok (y ∷ zs)) else ok (x ∷ y ∷ ys)

  sort : (A → A → Result Bool) → List A → Result (List A)
  sort lt [] = ok []
  sort lt (x ∷ xs) = do ys ← sort lt xs; insert lt x ys

  insert_key : (A → ℕ) → A → List A → List A
  insert_key key x [] = x ∷ []
  insert_key key x (y ∷ ys) = if ltb (key y) (key x) then y ∷ insert_key key x ys else x ∷ y ∷ ys

  sort_key : (A → ℕ) → List A → List A
  sort_key key [] = []
  sort_key key (x ∷ xs) = insert_key key x (sort_key key xs)

  insert-eq-insert_key :
      (lt : A → A → Result Bool) (key : A → ℕ) (x : A) (ys : List A)
      → All (λ y. lt y x ≡ ok (ltb (key y) (key x))) ys
      → insert lt x ys ≡ ok (insert_key key x ys)
  unfolding insert insert_key
  insert-eq-insert_key lt key x [] h = refl
  insert-eq-insert_key lt key x (y ∷ ys) h =
      ground (arith, h.0, insert-eq-insert_key lt key x ys h.1)

  insert_key-perm : (key : A → ℕ) (x : A) (ys : List A) → Permᴰ (x ∷ ys) (insert_key key x ys)
  unfolding insert_key
  insert_key-perm key x [] = Permᴰ.refl (x ∷ [])
  insert_key-perm key x (y ∷ ys) = elim (Bool-cases (ltb (key y) (key x))) [
    | inl lt ↦
        rw lt (Permᴰ.trans (Permᴰ.swap refl refl) (Permᴰ.cons refl (insert_key-perm key x ys)))
    | inr ge ↦ rw ge (Permᴰ.refl (x ∷ y ∷ ys))
  ]

  sort_key-perm : (key : A → ℕ) (xs : List A) → Permᴰ xs (sort_key key xs)
  unfolding sort_key
  sort_key-perm key [] = Permᴰ.nil
  sort_key-perm key (x ∷ xs) =
      Permᴰ.trans (Permᴰ.cons refl (sort_key-perm key xs)) (insert_key-perm key x (sort_key key xs))

  All-le_trans :
      (key : A → ℕ) (m n : ℕ) (ys : List A)
      → m ≤ n
      → All (λ y. n ≤ key y) ys
      → All (λ y. m ≤ key y) ys
  All-le_trans key m n [] le h = tt
  All-le_trans key m n (y ∷ ys) le h = (omega arith, All-le_trans key m n ys le h.1)

  insert_key-IsSortedBy :
      (key : A → ℕ) (x : A) (ys : List A) → IsSortedBy key ys → IsSortedBy key (insert_key key x ys)
  unfolding insert_key
  insert_key-IsSortedBy key x [] h = (tt, tt)
  insert_key-IsSortedBy key x (y ∷ ys) h = elim (Bool-cases (ltb (key y) (key x))) [
    | inl lt ↦ rw lt (
      All-perm (λ z. key y ≤ key z) (insert_key-perm key x ys) (ground arith, h.0),
      insert_key-IsSortedBy key x ys h.1,
    )
    | inr ge ↦
        let le : key x ≤ key y = ground arith in
        rw ge ((le, All-le_trans key (key x) (key y) ys le h.0), h)
  ]

  sort_key-IsSortedBy : (key : A → ℕ) (xs : List A) → IsSortedBy key (sort_key key xs)
  unfolding sort_key
  sort_key-IsSortedBy key [] = tt
  sort_key-IsSortedBy key (x ∷ xs) =
      insert_key-IsSortedBy key x (sort_key key xs) (sort_key-IsSortedBy key xs)

  filter-insert_key :
      (key : A → ℕ) (k : ℕ) (x : A) (ys : List A)
      → filter (λ z. key z == k) (insert_key key x ys) ≡ filter (λ z. key z == k) (x ∷ ys)
  unfolding insert_key
  filter-insert_key key k x [] = refl
  filter-insert_key key k x (y ∷ ys) = ground (arith, filter-insert_key key k x ys)

  sort_key-stable :
      (key : A → ℕ) (xs : List A) (k : ℕ)
      → filter (λ z. key z == k) (sort_key key xs) ≡ filter (λ z. key z == k) xs
  unfolding sort_key
  sort_key-stable key [] k = refl
  sort_key-stable key (x ∷ xs) k =
      filter-insert_key key k x (sort_key key xs)
      ∙ ap (λ l. if key x == k then x ∷ l else l) (sort_key-stable key xs k)

  Columns : (A → A → Result Bool) → (A → ℕ) → A → List A → Type 0
  Columns lt key x ys = All (λ y. lt y x ≡ ok (ltb (key y) (key x))) ys

  ComparesBy-tail :
      (lt : A → A → Result Bool) (key : A → ℕ) (x : A) (xs ys : List A)
      → All (λ z. All (λ y. lt z y ≡ ok (ltb (key z) (key y))) (x ∷ xs)) ys
      → Columns lt key x ys × All (λ z. All (λ y. lt z y ≡ ok (ltb (key z) (key y))) xs) ys
  unfolding Columns
  ComparesBy-tail lt key x xs [] h = (tt, tt)
  ComparesBy-tail lt key x xs (y ∷ ys) h =
      let rest = ComparesBy-tail lt key x xs ys h.1 in ((h.0.0, rest.0), (h.0.1, rest.1))

  sort-eq-sort_key :
      (lt : A → A → Result Bool) (key : A → ℕ) (xs : List A)
      → ComparesBy lt key xs
      → sort lt xs ≡ ok (sort_key key xs)
  unfolding sort sort_key Columns
  sort-eq-sort_key lt key [] h = refl
  sort-eq-sort_key lt key (x ∷ xs) h =
      let cols = ComparesBy-tail lt key x xs xs h.1 in
      rw (sort-eq-sort_key lt key xs cols.1) (
        insert-eq-insert_key lt key x (sort_key key xs)
          (All-perm (λ y. lt y x ≡ ok (ltb (key y) (key x))) (sort_key-perm key xs) cols.0))

pub insertion_sort : {A : Type 0} → ListSort A
insertion_sort = record {
  sort = sort;
  sort_by = λ lt key xs h. (
    sort_key key xs,
    sort-eq-sort_key lt key xs h,
    record {
      rearranged = sort_key-perm key xs;
      sorted = sort_key-IsSortedBy key xs;
      stable = sort_key-stable key xs;
    },
  );
}
