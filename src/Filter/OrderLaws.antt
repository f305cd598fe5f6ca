-- ===== src/Filter/OrderLaws.antt =====
-- src/cext/filter_utils/filter_options.c: a pass of order_by is a stable sort, ascending or
-- descending.
use mathlib.Core.List.{Permᴰ}
use mathlib.Core.List.Permᴰ
use mathlib.Core.Path.{subst}
use truenas_pyos.Prelude.{
  ℕ, suc, ◌<◌, ◌≡◌, ◌⊎◌, inl, inr, refl, ap, ◌∙◌, Bool, false, Option, Option-cases, none, some,
  List, [], ◌∷◌, ◌++◌, map, length, get_elem?, leb, All, filter, not, ◌≢◌, All-imp, arith,
  Bool-cases,
}
use truenas_pyos.Prelude.Int.{ℤ}
use truenas_pyos.Py.{ok, ◌>>=◌}
use truenas_pyos.Py.Sort.{ListSort, IsSortedBy, All-perm}
use truenas_pyos.Py.SortLists.{Pairwise, Perm-map_inv}
use truenas_pyos.Filter.Objects.{Runtime, dict_view}
use truenas_pyos.Filter.Ops.{is_none}
use truenas_pyos.Filter.Order.{
  NullsMode, OrderSpec, has_value, partition_nulls, pair_lt, sort_others, sort_by_spec,
  nulls_in_order, nulls_first, nulls_last,
}
use truenas_pyos.Filter.Tagged.{tagged, Precedes, All-tagged, get_elem?-tagged}
use truenas_pyos.Filter.SortPairs.{
  HasValue, pair_of, sort_pairs_from-tagged, reconstruct_from_pairs-map, key_of_pair, AreRanked,
  ComparesBy-key_of_pair, Pairwise-key_of_pair, directed, directed-map, directed_lem,
}

NullsMode-cases : (m : NullsMode) → (m ≡ nulls_in_order) ⊎ ((m ≡ nulls_first) ⊎ (m ≡ nulls_last))
NullsMode-cases nulls_in_order = inl refl
NullsMode-cases nulls_first = inr (inl refl)
NullsMode-cases nulls_last = inr (inr refl)

module _ {Obj : Type 0} (py : Runtime Obj) (list_sort : ListSort (Obj × ℤ)) (spec : OrderSpec) where
  -- A pass over items whose sort keys compare by rank returns them rearranged: by rank, falling in a
  -- descending pass, and in their old order where the ranks are equal.
  pub sort_others_stable :
      (value : Obj → Obj) (rank : Obj → ℕ) (items : List Obj)
      → All (HasValue py spec value) items
      → AreRanked py spec value rank items
      → (ys : List (ℕ × Obj)) × (sort_others py list_sort spec items ≡ ok (map (λ t. t.1) ys))
        × Permᴰ (tagged 0 items) ys
        × Pairwise (Precedes spec.reverse (λ x. rank (value x))) ys
  unfolding sort_others
  sort_others_stable value rank items found ranked =
      let n = length items in
      let ts = tagged 0 items in
      let pairs = sort_pairs_from-tagged py spec value items 0 found in
      let (sorted, sorts, stable) =
        list_sort.sort_by (pair_lt py) (key_of_pair py spec rank n) (map (pair_of py spec value) ts)
          (ComparesBy-key_of_pair py spec value rank n items (omega arith) ranked) in
      let (us, moved, e) = Perm-map_inv (pair_of py spec value) stable.rearranged ts refl in
      let key : Obj → ℕ = λ x. rank (value x) in
      let small : All (λ t. t.0 < n) us =
        All-imp (λ t. (t.0 < n) × HasValue py spec value t.1) (λ t. t.0 < n) us (λ t h. h.0)
          (All-perm _ moved (All-tagged (HasValue py spec value) n 0 items found (omega arith))) in
      let keyed =
        Pairwise-key_of_pair py spec value rank n us small
          (subst (IsSortedBy (key_of_pair py spec rank n)) e stable.sorted) in
      let (rearranged, ordered) = directed_lem py spec spec.reverse key ts us moved keyed in
      let ys = directed py spec spec.reverse us in
      let places : All (λ t. get_elem? items t.0 ≡ some t.1) ys =
        All-perm _ rearranged (get_elem?-tagged items [] items refl) in
      let run : sort_others py list_sort spec items ≡ ok (map (λ t. t.1) ys) =
        rw (pairs, sorts ∙ ap ok e, directed-map py spec value spec.reverse us)
          (reconstruct_from_pairs-map py spec value items ys places) in
      (ys, run, rearranged, ordered)

  sort_by_spec-sort_others :
      (items : List Obj)
      → leb (length items) 1 ≡ false
      → spec.nulls_mode ≡ nulls_in_order
      → sort_by_spec py list_sort spec items ≡ sort_others py list_sort spec items
  unfolding sort_by_spec
  sort_by_spec-sort_others items many mode = rw (many, mode) refl

  -- A pass with `nulls_mode` 0 over any number of items: they come back rearranged, by rank, falling in
  -- a descending pass, and in their old order where the ranks are equal. The sort key of each item is
  -- found, and any two of the keys compare as their ranks do.
  pub sort_by_spec_stable :
      (value : Obj → Obj) (rank : Obj → ℕ) (items : List Obj)
      → spec.nulls_mode ≡ nulls_in_order
      → All (HasValue py spec value) items
      → AreRanked py spec value rank items
      → (ys : List (ℕ × Obj)) × (sort_by_spec py list_sort spec items ≡ ok (map (λ t. t.1) ys))
        × Permᴰ (tagged 0 items) ys
        × Pairwise (Precedes spec.reverse (λ x. rank (value x))) ys
  unfolding sort_by_spec tagged
  sort_by_spec_stable value rank [] mode found ranked = ([], refl, Permᴰ.nil, tt)
  sort_by_spec_stable value rank (x ∷ []) mode found ranked =
      ((0, x) ∷ [], refl, Permᴰ.refl _, (tt, tt))
  sort_by_spec_stable value rank (x ∷ y ∷ items) mode found ranked =
      let (ys, run, rearranged, ordered) =
        sort_others_stable value rank (x ∷ y ∷ items) found ranked in
      let many : leb (suc (suc (length items))) 1 ≡ false = ground arith in
      (ys, sort_by_spec-sort_others (x ∷ y ∷ items) many mode ∙ run, rearranged, ordered)

  partition_nulls-filter :
      (others : Obj → Bool) (items : List Obj)
      → All (λ x. has_value py spec.top_key x ≡ ok (others x)) items
      → partition_nulls py spec.top_key items
        ≡ ok (filter (λ x. not (others x)) items, filter others items)
  unfolding partition_nulls
  partition_nulls-filter others [] h = refl
  partition_nulls-filter others (x ∷ items) h = elim (Bool-cases (others x)) [
    | inl e ↦ rw (h.0, partition_nulls-filter others items h.1, e) refl
    | inr e ↦ rw (h.0, partition_nulls-filter others items h.1, e) refl
  ]

  -- The two parts in the order that `nulls_mode` asks for.
  abbrev pub with_nulls : NullsMode → List Obj → List Obj → List Obj
  with_nulls nulls_in_order nulls sorted = sorted
  with_nulls nulls_first nulls sorted = nulls ++ sorted
  with_nulls nulls_last nulls sorted = sorted ++ nulls

  sort_by_spec-with_nulls :
      (items : List Obj)
      → leb (length items) 1 ≡ false
      → spec.nulls_mode ≢ nulls_in_order
      → sort_by_spec py list_sort spec items ≡ (
          partition_nulls py spec.top_key items >>= λ buckets.
          sort_others py list_sort spec buckets.1 >>= λ sorted.
          ok (with_nulls spec.nulls_mode buckets.0 sorted))
  unfolding sort_by_spec
  sort_by_spec-with_nulls items many mode = elim (NullsMode-cases spec.nulls_mode) [
    | inl e ↦ absurd (mode e)
    | inr (inl e) ↦ rw (many, e) refl
    | inr (inr e) ↦ rw (many, e) refl
  ]

  -- Whether what a dict has under the field's whole text, if anything, is a value.
  abbrev pub is_value : Option Obj → Bool
  is_value none = false
  is_value (some v) = not (is_none py v)

  -- The item is an exact dict, and `entry` is what it has under the field's whole text.
  abbrev pub IsRow : (Obj → Option Obj) → Obj → Type 0
  IsRow entry x = (py.view x ≡ dict_view) × (py.dict_get x spec.top_key ≡ ok (entry x))

  has_value-is_value :
      (entry : Obj → Option Obj) (items : List Obj)
      → All (IsRow entry) items
      → All (λ x. has_value py spec.top_key x ≡ ok (is_value (entry x))) items
  unfolding has_value
  has_value-is_value entry [] h = tt
  has_value-is_value entry (x ∷ items) h = (
    elim (Option-cases (entry x)) [
      | inl e ↦ rw (has_value, h.0.0, h.0.1, e) refl
      | inr (v, e) ↦ rw (has_value, h.0.0, h.0.1, e) refl
    ],
    has_value-is_value entry items h.1,
  )

  -- A pass with the nulls first or last over two exact dicts or more: those that have nothing, or
  -- `None`, under the field's whole text keep their order and stand together at that end, and the
  -- others, whose sort keys are found and compare by rank, are sorted stably by rank, falling in a
  -- descending pass.
  pub sort_by_spec_nulls :
      (value : Obj → Obj) (rank : Obj → ℕ) (entry : Obj → Option Obj) (items : List Obj)
      → spec.nulls_mode ≢ nulls_in_order
      → 1 < length items
      → All (IsRow entry) items
      → All (HasValue py spec value) (filter (λ x. is_value (entry x)) items)
      → AreRanked py spec value rank (filter (λ x. is_value (entry x)) items)
      → (ys : List (ℕ × Obj)) × (sort_by_spec py list_sort spec items
          ≡ ok (
              with_nulls spec.nulls_mode
                (filter (λ x. not (is_value (entry x))) items)
                (map (λ t. t.1) ys)))
        × Permᴰ (tagged 0 (filter (λ x. is_value (entry x)) items)) ys
        × Pairwise (Precedes spec.reverse (λ x. rank (value x))) ys
  sort_by_spec_nulls value rank entry items mode many split found ranked =
      let others : Obj → Bool = λ x. is_value (entry x) in
      let (ys, run, rearranged, ordered) =
        sort_others_stable value rank (filter others items) found ranked in
      let size : leb (length items) 1 ≡ false = ground arith in
      let parts = partition_nulls-filter others items (has_value-is_value entry items split) in
      (ys, rw (sort_by_spec-with_nulls items size mode, parts, run) refl, rearranged, ordered)
