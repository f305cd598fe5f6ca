-- ===== src/Filter/SortPairs.antt =====
-- src/cext/filter_utils/filter_options.c: the pairs that a pass of order_by sorts, and their order.
use mathlib.Core.List.{Permᴰ}
use mathlib.Core.Path.{subst}
use truenas_pyos.Prelude.{
  ℕ, zero, suc, ◌+◌, ◌*◌, ◌-◌, ◌≤◌, ◌<◌, ◌≡◌, ◌⊎◌, inl, inr, refl, sym, Bool, true, false, some,
  List, [], ◌∷◌, map, length, get_elem?, ltb, ◌==◌, if◌then◌else◌, All, All-imp, arith, Bool-cases,
}
use truenas_pyos.Prelude.Int.{ℤ, ltb_ℤ}
use truenas_pyos.Py.{ok}
use truenas_pyos.Py.Sort.{IsSortedBy, ComparesBy}
use truenas_pyos.Py.SortLists.{ltb-lex, lex_le, Pairwise, All-map, All-map_inv, All-both}
use truenas_pyos.Filter.Objects.{Runtime, py_eq, py_lt}
use truenas_pyos.Filter.Order.{
  OrderSpec, signed, unsigned, reversed, opt_traverse_keys, sort_pairs_from, pair_lt,
  reconstruct_from_pairs,
}
use truenas_pyos.Filter.Tagged.{
  tagged, Precedes, All-tagged, reversed_perm, Pairwise-reversed, reversed-map,
}

module _ {Obj : Type 0} (py : Runtime Obj) (spec : OrderSpec) where
  -- The sort key of an item is `value` of it.
  abbrev pub HasValue : (Obj → Obj) → Obj → Type 0
  HasValue value x = opt_traverse_keys py x spec.keys ≡ ok (value x)

  -- Two keys compare as their ranks do.
  abbrev pub IsRanked : (Obj → ℕ) → Obj → Obj → Type 0
  IsRanked rank a b =
      (py.compare py_eq a b ≡ ok (rank a == rank b))
      × (py.compare py_lt a b ≡ ok (ltb (rank a) (rank b)))

  unfoldable pub pair_of : (Obj → Obj) → ℕ × Obj → Obj × ℤ
  pair_of value t = (value t.1, signed spec.reverse t.0)

  pub sort_pairs_from-tagged :
      (value : Obj → Obj) (items : List Obj) (i : ℕ)
      → All (HasValue value) items
      → sort_pairs_from py spec items i ≡ ok (map (pair_of value) (tagged i items))
  unfolding sort_pairs_from tagged pair_of
  sort_pairs_from-tagged value [] i h = refl
  sort_pairs_from-tagged value (x ∷ items) i h =
      rw (h.0, sort_pairs_from-tagged value items (i + 1) h.1) refl

  pub unsigned-signed : (r : Bool) (i : ℕ) → unsigned (signed r i) ≡ i
  unsigned-signed false i = refl
  unsigned-signed true zero = refl
  unsigned-signed true (suc i) = refl

  pub reconstruct_from_pairs-map :
      (value : Obj → Obj) (items : List Obj) (ts : List (ℕ × Obj))
      → All (λ t. get_elem? items t.0 ≡ some t.1) ts
      → reconstruct_from_pairs py items (map (pair_of value) ts) ≡ ok (map (λ t. t.1) ts)
  unfolding reconstruct_from_pairs pair_of
  reconstruct_from_pairs-map value items [] h = refl
  reconstruct_from_pairs-map value items (t ∷ ts) h =
      rw (unsigned-signed spec.reverse t.0, h.0, reconstruct_from_pairs-map value items ts h.1) refl

  -- A pair as one number: the rank first, then the position, counted down in a descending pass.
  unfoldable pub offset : Bool → ℕ → ℕ → ℕ
  offset false n p = p
  offset true n p = n - 1 - p

  unfoldable pub key_of_pair : (Obj → ℕ) → ℕ → Obj × ℤ → ℕ
  key_of_pair rank n pair = rank pair.0 * n + offset spec.reverse n (unsigned pair.1)

  pub offset-lt : (r : Bool) (n p : ℕ) → p < n → offset r n p < n
  unfolding offset
  offset-lt false n p h = h
  offset-lt true n p h = omega arith

  pub ltb_ℤ-offset :
      (r : Bool) (n p q : ℕ)
      → p < n
      → q < n
      → ltb_ℤ (signed r p) (signed r q) ≡ ltb (offset r n p) (offset r n q)
  unfolding offset
  ltb_ℤ-offset false n p q h k = refl
  ltb_ℤ-offset true n zero zero h k = ground arith
  ltb_ℤ-offset true n zero (suc q) h k = ground arith
  ltb_ℤ-offset true n (suc p) zero h k = ground arith
  ltb_ℤ-offset true n (suc p) (suc q) h k = ground arith

  pub pair_lt-key_of_pair :
      (value : Obj → Obj) (rank : Obj → ℕ) (n : ℕ) (t u : ℕ × Obj)
      → t.0 < n
      → u.0 < n
      → IsRanked rank (value t.1) (value u.1)
      → pair_lt py (pair_of value t) (pair_of value u)
        ≡ ok (ltb (key_of_pair rank n (pair_of value t)) (key_of_pair rank n (pair_of value u)))
  unfolding pair_lt pair_of key_of_pair
  pair_lt-key_of_pair value rank n t u ht hu ranked =
      let a = rank (value t.1) in
      let b = rank (value u.1) in
      let r = spec.reverse in
      let lex =
        ltb-lex a b n (offset r n t.0) (offset r n u.0) (offset-lt r n t.0 ht)
          (offset-lt r n u.0 hu) in
      rw (unsigned-signed r t.0, unsigned-signed r u.0, lex, ranked.0)
        (elim (Bool-cases (a == b)) [
          | inl e ↦ rw (e, ltb_ℤ-offset r n t.0 u.0 ht hu) refl
          | inr e ↦ rw (e, ranked.1) refl
        ])

  -- The keys of any two items compare as their ranks do.
  abbrev pub AreRanked : (Obj → Obj) → (Obj → ℕ) → List Obj → Type 0
  AreRanked value rank items = All (λ x. All (λ y. IsRanked rank (value x) (value y)) items) items

  pub ComparesBy-key_of_pair :
      (value : Obj → Obj) (rank : Obj → ℕ) (n : ℕ) (items : List Obj)
      → length items ≤ n
      → AreRanked value rank items
      → ComparesBy (pair_lt py) (key_of_pair rank n) (map (pair_of value) (tagged 0 items))
  ComparesBy-key_of_pair value rank n items fits h =
      let ts = tagged 0 items in
      All-map (pair_of value) _ ts (
        All-imp (λ t. (t.0 < n) × All (λ y. IsRanked rank (value t.1) (value y)) items) _ ts
          (λ t ht. All-map (pair_of value) _ ts (
            All-imp (λ u. (u.0 < n) × IsRanked rank (value t.1) (value u.1)) _ ts
              (λ u hu. pair_lt-key_of_pair value rank n t u ht.0 hu.0 hu.1)
              (All-tagged (λ y. IsRanked rank (value t.1) (value y)) n 0 items ht.1 (omega arith))))
          (All-tagged (λ x. All (λ y. IsRanked rank (value x) (value y)) items) n 0 items h
            (omega arith)))

  pub lex_of_key :
      (value : Obj → Obj) (rank : Obj → ℕ) (n : ℕ) (t u : ℕ × Obj)
      → t.0 < n
      → u.0 < n
      → key_of_pair rank n (pair_of value t) ≤ key_of_pair rank n (pair_of value u)
      → (rank (value t.1) < rank (value u.1))
        ⊎ ((rank (value t.1) ≡ rank (value u.1))
            × offset spec.reverse n t.0 ≤ offset spec.reverse n u.0)
  unfolding key_of_pair pair_of
  lex_of_key value rank n t u ht hu le =
      let r = spec.reverse in
      lex_le (rank (value t.1)) (rank (value u.1)) n (offset r n t.0) (offset r n u.0)
        (offset-lt r n t.0 ht) (offset-lt r n u.0 hu)
        (subst (λ a. rank (value t.1) * n + offset r n a ≤ rank (value u.1) * n + offset r n u.0)
          (unsigned-signed r t.0)
          (subst
            (λ b.
              rank (value t.1) * n + offset r n (unsigned (signed r t.0))
              ≤ rank (value u.1) * n + offset r n b)
            (unsigned-signed r u.0) le))

  -- Precedence read in the direction of the sort.
  abbrev Sorts : Bool → (Obj → ℕ) → ℕ × Obj → ℕ × Obj → Type 0
  Sorts false key t u = Precedes false key t u
  Sorts true key t u = Precedes true key u t

  pub Sorts-lex :
      (r : Bool) (key : Obj → ℕ) (n : ℕ) (t u : ℕ × Obj)
      → t.0 < n
      → u.0 < n
      → (key t.1 < key u.1) ⊎ ((key t.1 ≡ key u.1) × offset r n t.0 ≤ offset r n u.0)
      → Sorts r key t u
  unfolding offset
  Sorts-lex false key n t u ht hu h = h
  Sorts-lex true key n t u ht hu (inl lt) = inl lt
  Sorts-lex true key n t u ht hu (inr (e, le)) = inr (sym e, omega arith)

  -- Sorted by these numbers, the items stand in order, read forwards or backwards.
  pub Pairwise-key_of_pair :
      (value : Obj → Obj) (rank : Obj → ℕ) (n : ℕ) (ts : List (ℕ × Obj))
      → All (λ t. t.0 < n) ts
      → IsSortedBy (key_of_pair rank n) (map (pair_of value) ts)
      → Pairwise (Sorts spec.reverse (λ x. rank (value x))) ts
  Pairwise-key_of_pair value rank n [] small h = tt
  Pairwise-key_of_pair value rank n (t ∷ ts) small h =
      let after = All-map_inv (pair_of value) _ ts h.0 in
      (
        All-imp _ (Sorts spec.reverse (λ x. rank (value x)) t) ts (λ u hu. one u hu.0 hu.1)
            (All-both (λ u. u.0 < n)
              (λ u. key_of_pair rank n (pair_of value t) ≤ key_of_pair rank n (pair_of value u)) ts
              small.1 after),
        Pairwise-key_of_pair value rank n ts small.1 h.1,
      )
    where
      one :
          (u : ℕ × Obj)
          → u.0 < n
          → key_of_pair rank n (pair_of value t) ≤ key_of_pair rank n (pair_of value u)
          → Sorts spec.reverse (λ x. rank (value x)) t u
      one u hu le =
          Sorts-lex spec.reverse (λ x. rank (value x)) n t u small.0 hu
            (lex_of_key value rank n t u small.0 hu le)

  -- The items in the order of a pass.
  unfoldable pub directed : Bool → List (ℕ × Obj) → List (ℕ × Obj)
  directed false us = us
  directed true us = reversed us

  pub directed-map :
      (value : Obj → Obj) (r : Bool) (us : List (ℕ × Obj))
      → (if r then reversed (map (pair_of value) us) else map (pair_of value) us)
        ≡ map (pair_of value) (directed r us)
  unfolding directed
  directed-map value false us = refl
  directed-map value true us = reversed-map (pair_of value) us

  pub directed_lem :
      (r : Bool) (key : Obj → ℕ) (ts us : List (ℕ × Obj))
      → Permᴰ ts us
      → Pairwise (Sorts r key) us
      → Permᴰ ts (directed r us) × Pairwise (Precedes r key) (directed r us)
  unfolding directed
  directed_lem false key ts us p h = (p, h)
  directed_lem true key ts us p h =
      (Permᴰ.trans p (reversed_perm us), Pairwise-reversed (Precedes true key) us h)
