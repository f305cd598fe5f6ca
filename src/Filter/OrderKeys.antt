-- ===== src/Filter/OrderKeys.antt =====
-- src/cext/filter_utils/filter_options.c: order_by with several directives, `apply_order`.
use mathlib.Core.List.{Permᴰ}
use mathlib.Core.List.Permᴰ
use mathlib.Core.Path.{subst}
use truenas_pyos.Prelude.{
  ℕ, ◌+◌, ◌≤◌, ◌<◌, ◌≡◌, ◌⊎◌, inl, inr, refl, ap, sym, ◌∙◌, Bool, true, false, some, List, [], ◌∷◌,
  map, get_elem?, All, All-imp, arith,
}
use truenas_pyos.Prelude.Int.{ℤ}
use truenas_pyos.Py.{ok}
use truenas_pyos.Py.Sort.{ListSort, All-perm}
use truenas_pyos.Py.SortLists.{Pairwise, Perm-map_inv, All-map, All-map_inv, Perm-map, All-both}
use truenas_pyos.Filter.Objects.{Runtime}
use truenas_pyos.Filter.Order.{OrderSpec, apply_order, nulls_in_order}
use truenas_pyos.Filter.Tagged.{
  tagged, Precedes, get_elem?-tagged, Pairwise-get_elem?, map-tagged, All-rearranged,
  Pairwise-tagged,
}
use truenas_pyos.Filter.SortPairs.{HasValue, IsRanked, AreRanked}
use truenas_pyos.Filter.OrderLaws.{sort_by_spec_stable}

-- A directive read as an order: its direction and the rank of an item.
abbrev pub Directive : Type 0 → Type 0
Directive A = Bool × (A → ℕ)

-- One item may stand before another: the first directive that tells their ranks apart decides, and
-- without one the position.
abbrev pub MayPrecede : {A : Type 0} → List (Directive A) → ℕ × A → ℕ × A → Type 0
MayPrecede [] t u = t.0 ≤ u.0
MayPrecede ((false, key) ∷ ds) t u = (key t.1 < key u.1) ⊎ ((key t.1 ≡ key u.1) × MayPrecede ds t u)
MayPrecede ((true, key) ∷ ds) t u = (key u.1 < key t.1) ⊎ ((key t.1 ≡ key u.1) × MayPrecede ds t u)

module _ {A : Type 0} where
  MayPrecede-refl : (ds : List (Directive A)) (t : ℕ × A) → MayPrecede ds t t
  MayPrecede-refl [] t = omega arith
  MayPrecede-refl ((false, key) ∷ ds) t = inr (refl, MayPrecede-refl ds t)
  MayPrecede-refl ((true, key) ∷ ds) t = inr (refl, MayPrecede-refl ds t)

  -- A position in a list of tagged items, as a tag of its item.
  retag : ℕ × (ℕ × A) → ℕ × A
  retag w = (w.0, w.1.1)

  tagged-retag :
      (i : ℕ) (zs : List (ℕ × A)) → tagged i (map (λ z. z.1) zs) ≡ map retag (tagged i zs)
  unfolding tagged retag
  tagged-retag i [] = refl
  tagged-retag i (z ∷ zs) = ap (λ l. (i, z.1) ∷ l) (tagged-retag (i + 1) zs)

  map-retag :
      (ws : List (ℕ × (ℕ × A))) → map (λ t. t.1) (map retag ws) ≡ map (λ t. t.1) (map (λ w. w.1) ws)
  unfolding retag
  map-retag [] = refl
  map-retag (w ∷ ws) = ap (λ l. w.1.1 ∷ l) (map-retag ws)

  retag-MayPrecede :
      (r : Bool) (key : A → ℕ) (ds : List (Directive A)) (zs : List (ℕ × A)) (w v : ℕ × (ℕ × A))
      → Pairwise (MayPrecede ds) zs
      → get_elem? zs w.0 ≡ some w.1
      → get_elem? zs v.0 ≡ some v.1
      → Precedes r key (retag w) (retag v)
      → MayPrecede ((r, key) ∷ ds) w.1 v.1
  unfolding retag
  retag-MayPrecede false key ds zs w v h e f (inl lt) = inl lt
  retag-MayPrecede false key ds zs w v h e f (inr (same, le)) =
      inr
        (same, Pairwise-get_elem? (MayPrecede ds) (MayPrecede-refl ds) zs w.0 v.0 w.1 v.1 h e f le)
  retag-MayPrecede true key ds zs w v h e f (inl lt) = inl lt
  retag-MayPrecede true key ds zs w v h e f (inr (same, le)) =
      inr
        (same, Pairwise-get_elem? (MayPrecede ds) (MayPrecede-refl ds) zs w.0 v.0 w.1 v.1 h e f le)

  -- A stable pass over items that are ordered by the later directives.
  Pairwise-retag :
      (r : Bool) (key : A → ℕ) (ds : List (Directive A)) (zs : List (ℕ × A))
      (ws : List (ℕ × (ℕ × A)))
      → Pairwise (MayPrecede ds) zs
      → All (λ w. get_elem? zs w.0 ≡ some w.1) ws
      → Pairwise (Precedes r key) (map retag ws)
      → Pairwise (MayPrecede ((r, key) ∷ ds)) (map (λ w. w.1) ws)
  Pairwise-retag r key ds zs [] h places o = tt
  Pairwise-retag r key ds zs (w ∷ ws) h places o = (
    All-map (λ x. x.1) (MayPrecede ((r, key) ∷ ds) w.1) ws
        (All-imp _ (λ v. MayPrecede ((r, key) ∷ ds) w.1 v.1) ws
          (λ v hv. retag-MayPrecede r key ds zs w v h places.0 hv.0 hv.1)
          (All-both (λ v. get_elem? zs v.0 ≡ some v.1) (λ v. Precedes r key (retag w) (retag v)) ws
            places.1 (All-map_inv retag (Precedes r key (retag w)) ws o.0))),
    Pairwise-retag r key ds zs ws h places.1 o.1,
  )

module _ {Obj : Type 0} (py : Runtime Obj) (list_sort : ListSort (Obj × ℤ)) where
  -- A directive with the sort key and the rank of an item.
  abbrev pub Keyed : Type 0
  Keyed = OrderSpec × (Obj → Obj) × (Obj → ℕ)

  -- The nulls are left in the order, the sort keys are found, and any two compare as their ranks do.
  abbrev pub IsReady : List Obj → Keyed → Type 0
  IsReady items k =
      (k.0.nulls_mode ≡ nulls_in_order)
      × All (HasValue py k.0 k.1) items
      × AreRanked py k.0 k.1 k.2 items

  abbrev pub directives : List Keyed → List (Directive Obj)
  directives [] = []
  directives (k ∷ ks) = (k.0.reverse, λ x. k.2 (k.1 x)) ∷ directives ks

  IsReady-rearranged :
      (items : List Obj) (zs : List (ℕ × Obj)) (k : Keyed)
      → Permᴰ (tagged 0 items) zs
      → IsReady items k
      → IsReady (map (λ z. z.1) zs) k
  IsReady-rearranged items zs k moved h =
      let values = map (λ z. z.1) zs in
      (
        h.0,
        All-rearranged (HasValue py k.0 k.1) items zs moved h.1,
        All-imp _ _ values
            (λ x hx. All-rearranged (λ y. IsRanked py k.0 k.2 (k.1 x) (k.1 y)) items zs moved hx)
            (All-rearranged (λ x. All (λ y. IsRanked py k.0 k.2 (k.1 x) (k.1 y)) items) items zs
              moved h.2),
      )

  -- With several directives, none of which sets the nulls apart, the items come back rearranged: of two
  -- items, the first directive that tells their ranks apart decides which stands earlier, in its own
  -- direction, and items that no directive tells apart keep their order.
  pub apply_order_stable :
      (ks : List Keyed) (items : List Obj)
      → All (IsReady items) ks
      → (ys : List (ℕ × Obj)) × (apply_order py list_sort (map (λ k. k.0) ks) items
          ≡ ok (map (λ t. t.1) ys))
        × Permᴰ (tagged 0 items) ys
        × Pairwise (MayPrecede (directives ks)) ys
  unfolding apply_order
  apply_order_stable [] items h =
      (tagged 0 items, ap ok (sym (map-tagged 0 items)), Permᴰ.refl _, Pairwise-tagged 0 items)
  apply_order_stable (k ∷ ks) items h =
      let (zs, later, moved, ordered) = apply_order_stable ks items h.1 in
      let ready = IsReady-rearranged items zs k moved h.0 in
      let (us, run, sorted, stable) =
        sort_by_spec_stable py list_sort k.0 k.1 k.2 (map (λ z. z.1) zs) ready.0 ready.1 ready.2 in
      let (ws, tags, e) = Perm-map_inv retag sorted (tagged 0 zs) (tagged-retag 0 zs) in
      let places : All (λ w. get_elem? zs w.0 ≡ some w.1) ws =
        All-perm _ tags (get_elem?-tagged zs [] zs refl) in
      let same : map (λ t. t.1) us ≡ map (λ t. t.1) (map (λ w. w.1) ws) =
        ap (λ l. map (λ t. t.1) l) e ∙ map-retag ws in
      (
        map (λ w. w.1) ws,
        rw later (run ∙ ap ok same),
        Permᴰ.trans moved
            (subst (λ l. Permᴰ l (map (λ w. w.1) ws)) (map-tagged 0 zs) (Perm-map (λ w. w.1) tags)),
        Pairwise-retag k.0.reverse (λ x. k.2 (k.1 x)) (directives ks) zs ws ordered places
            (subst (Pairwise (Precedes k.0.reverse (λ x. k.2 (k.1 x)))) e stable),
      )
