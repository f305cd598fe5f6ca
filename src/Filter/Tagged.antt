-- ===== src/Filter/Tagged.antt =====
-- Items tagged with their positions, as the sort of src/cext/filter_utils/filter_options.c pairs them.
use mathlib.Core.List.{Permᴰ}
use mathlib.Core.List.Permᴰ
use mathlib.Core.List.{append_assoc, map-append}
use mathlib.Core.Path.{subst}
use truenas_pyos.Prelude.{
  ℕ, zero, suc, ◌+◌, ◌≤◌, ◌<◌, ◌≡◌, ◌⊎◌, refl, ap, sym, ◌∙◌, Bool, true, false, some, List, [], ◌∷◌,
  ◌++◌, map, length, get_elem?, All, All-imp, length-append, arith,
}
use truenas_pyos.Py.Sort.{All-perm}
use truenas_pyos.Py.SortLists.{Pairwise, Pairwise-append, All-map}
use truenas_pyos.Filter.Order.{reversed}

-- The items with their positions, from `i` on.
unfoldable pub tagged : {A : Type 0} → ℕ → List A → List (ℕ × A)
tagged i [] = []
tagged i (x ∷ xs) = (i, x) ∷ tagged (i + 1) xs

-- One item may stand before another: its key comes first, or the keys are equal and its position was
-- no later.
abbrev pub Precedes : {A : Type 0} → Bool → (A → ℕ) → ℕ × A → ℕ × A → Type 0
Precedes false key t u = (key t.1 < key u.1) ⊎ ((key t.1 ≡ key u.1) × t.0 ≤ u.0)
Precedes true key t u = (key u.1 < key t.1) ⊎ ((key t.1 ≡ key u.1) × t.0 ≤ u.0)

module _ {A : Type 0} where
  pub All-tagged :
      (P : A → Type 0) (n i : ℕ) (xs : List A)
      → All P xs
      → i + length xs ≤ n
      → All (λ t. (t.0 < n) × P t.1) (tagged i xs)
  unfolding tagged
  All-tagged P n i [] h fits = tt
  All-tagged P n i (x ∷ xs) h fits =
      ((omega arith, h.0), All-tagged P n (i + 1) xs h.1 (omega arith))

  pub get_elem?-length :
      (before : List A) (x : A) (xs : List A)
      → get_elem? (before ++ (x ∷ xs)) (length before) ≡ some x
  get_elem?-length [] x xs = refl
  get_elem?-length (y ∷ before) x xs = get_elem?-length before x xs

  pub get_elem?-tagged :
      (all before xs : List A)
      → all ≡ before ++ xs
      → All (λ t. get_elem? all t.0 ≡ some t.1) (tagged (length before) xs)
  unfolding tagged
  get_elem?-tagged all before [] e = tt
  get_elem?-tagged all before (x ∷ xs) e =
      let here : get_elem? all (length before) ≡ some x = rw e (get_elem?-length before x xs) in
      let rest =
        get_elem?-tagged all (before ++ (x ∷ [])) xs (e ∙ sym (append_assoc before (x ∷ []) xs)) in
      (
        here,
        subst (λ n. All (λ t. get_elem? all t.0 ≡ some t.1) (tagged n xs))
            (length-append before (x ∷ [])) rest,
      )

  pub snoc_perm : (x : A) (xs : List A) → Permᴰ (x ∷ xs) (xs ++ (x ∷ []))
  snoc_perm x [] = Permᴰ.refl (x ∷ [])
  snoc_perm x (y ∷ xs) = Permᴰ.trans (Permᴰ.swap refl refl) (Permᴰ.cons refl (snoc_perm x xs))

  pub reversed_perm : (xs : List A) → Permᴰ xs (reversed xs)
  unfolding reversed
  reversed_perm [] = Permᴰ.nil
  reversed_perm (x ∷ xs) =
      Permᴰ.trans (Permᴰ.cons refl (reversed_perm xs)) (snoc_perm x (reversed xs))

  -- Reversed, a list is ordered by the relation read backwards.
  pub Pairwise-reversed :
      (R : A → A → Type 0) (xs : List A) → Pairwise (λ x y. R y x) xs → Pairwise R (reversed xs)
  unfolding reversed
  Pairwise-reversed R [] h = tt
  Pairwise-reversed R (x ∷ xs) h =
      let all_before : All (λ y. R y x) (reversed xs) =
        All-perm (λ y. R y x) (reversed_perm xs) h.0 in
      Pairwise-append R (reversed xs) (x ∷ []) (Pairwise-reversed R xs h.1) (tt, tt)
        (All-imp (λ y. R y x) (λ y. All (R y) (x ∷ [])) (reversed xs) (λ y r. (r, tt)) all_before)

  pub reversed-map :
      {B : Type 0} (f : A → B) (xs : List A) → reversed (map f xs) ≡ map f (reversed xs)
  unfolding reversed
  reversed-map f [] = refl
  reversed-map f (x ∷ xs) =
      ap (λ l. l ++ (f x ∷ [])) (reversed-map f xs) ∙ sym (map-append f (reversed xs) (x ∷ []))

module _ {A : Type 0} where
  pub get_elem?-All :
      (P : A → Type 0) (xs : List A) (p : ℕ) (x : A) → All P xs → get_elem? xs p ≡ some x → P x
  get_elem?-All P [] p x h e = cc
  get_elem?-All P (y ∷ xs) zero x h e = let q : y ≡ x = cc in subst P q h.0
  get_elem?-All P (y ∷ xs) (suc p) x h e = get_elem?-All P xs p x h.1 e

  -- In an ordered list, what stands earlier may precede what stands later.
  pub Pairwise-get_elem? :
      (R : A → A → Type 0)
      → ((x : A) → R x x)
      → (xs : List A) (p q : ℕ) (x y : A) → Pairwise R xs
      → get_elem? xs p ≡ some x
      → get_elem? xs q ≡ some y
      → p ≤ q
      → R x y
  Pairwise-get_elem? R r [] p q x y h e f le = cc
  Pairwise-get_elem? R r (z ∷ xs) zero zero x y h e f le = let s : x ≡ y = cc in subst (R x) s (r x)
  Pairwise-get_elem? R r (z ∷ xs) zero (suc q) x y h e f le =
      let s : z ≡ x = cc in subst (λ w. R w y) s (get_elem?-All (R z) xs q y h.0 f)
  Pairwise-get_elem? R r (z ∷ xs) (suc p) zero x y h e f le = absurd (omega arith)
  Pairwise-get_elem? R r (z ∷ xs) (suc p) (suc q) x y h e f le =
      Pairwise-get_elem? R r xs p q x y h.1 e f (omega arith)

  pub map-tagged : (i : ℕ) (zs : List A) → map (λ w. w.1) (tagged i zs) ≡ zs
  unfolding tagged
  map-tagged i [] = refl
  map-tagged i (z ∷ zs) = ap (λ l. z ∷ l) (map-tagged (i + 1) zs)

  -- What holds of every item holds of every item of a rearranged list.
  pub All-rearranged :
      (P : A → Type 0) (items : List A) (zs : List (ℕ × A))
      → Permᴰ (tagged 0 items) zs
      → All P items
      → All P (map (λ z. z.1) zs)
  All-rearranged P items zs moved h =
      All-map (λ z. z.1) P zs
        (All-imp (λ z. (z.0 < length items) × P z.1) (λ z. P z.1) zs (λ z hz. hz.1)
          (All-perm _ moved (All-tagged P (length items) 0 items h (omega arith))))

  pub Pairwise-tagged : (i : ℕ) (xs : List A) → Pairwise (λ t u. t.0 ≤ u.0) (tagged i xs)
  unfolding tagged
  Pairwise-tagged i [] = tt
  Pairwise-tagged i (x ∷ xs) = (from_tagged i (i + 1) xs (omega arith), Pairwise-tagged (i + 1) xs)
    where
      from_tagged : (i j : ℕ) (xs : List A) → i ≤ j → All (λ u. i ≤ u.0) (tagged j xs)
      from_tagged i j [] h = tt
      from_tagged i j (x ∷ xs) h = (h, from_tagged i (j + 1) xs (omega arith))
