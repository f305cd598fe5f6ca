-- ===== src/Filter/OptionsLaws.antt =====
-- src/cext/filter_utils/filter_options.c: the count or the page that apply_options returns.
use truenas_pyos.Prelude.{
  ◌⊎◌, inl, inr, Bool-cases, ℕ, zero, suc, ◌+◌, ◌≡◌, refl, ap, ◌∙◌, Bool, true, false, none, List,
  [], ◌∷◌, length, get_elem?, take, drop, ltb, if◌then◌else◌, arith, ltb_of_le, lt→ltb,
}
use truenas_pyos.Prelude.Int.{ℤ, pos, negsuc}
use truenas_pyos.Py.{Result, Exc, raise, ok}
use truenas_pyos.Py.Sort.{ListSort}
use truenas_pyos.Filter.Objects.{Runtime}
use truenas_pyos.Filter.Order.{apply_order}
use truenas_pyos.Filter.Options.{
  CompiledOptions, behind_offset, within_limit, finish_options, count_of, items_of,
}

-- How many items an offset skips, and whether a limit lets the item at a place through.
abbrev pub skipped : ℤ → ℕ
skipped (pos n) = n
skipped (negsuc n) = 0

abbrev pub lets_through : ℤ → ℕ → Bool
lets_through (pos zero) i = true
lets_through (pos (suc n)) i = ltb i (suc n)
lets_through (negsuc n) i = true

module _ {A : Type 0} where
  get_elem?-drop : (n i : ℕ) (xs : List A) → get_elem? (drop n xs) i ≡ get_elem? xs (n + i)
  get_elem?-drop zero i xs = ap (get_elem? xs) (omega arith)
  get_elem?-drop (suc n) i [] = refl
  get_elem?-drop (suc n) i (x ∷ xs) =
      let places : suc (n + i) ≡ suc n + i = omega arith in
      get_elem?-drop n i xs ∙ ap (get_elem? (x ∷ xs)) places

  get_elem?-take :
      (n i : ℕ) (xs : List A) → get_elem? (take n xs) i ≡ (if ltb i n then get_elem? xs i else none)
  get_elem?-take zero i xs = rw (ltb_of_le i 0 (omega arith)) refl
  get_elem?-take (suc n) i [] = ground arith
  get_elem?-take (suc n) zero (x ∷ xs) = rw (lt→ltb 0 (suc n) (omega arith)) refl
  get_elem?-take (suc n) (suc i) (x ∷ xs) =
      let tests : ltb i n ≡ ltb (suc i) (suc n) = ground arith in
      get_elem?-take n i xs ∙ ap (λ b. if b then get_elem? xs i else none) tests

  get_elem?-behind_offset :
      (z : ℤ) (i : ℕ) (xs : List A)
      → get_elem? (behind_offset z xs) i ≡ get_elem? xs (skipped z + i)
  get_elem?-behind_offset (pos n) i xs = get_elem?-drop n i xs
  get_elem?-behind_offset (negsuc n) i xs = ap (get_elem? xs) (omega arith)

  get_elem?-within_limit :
      (z : ℤ) (i : ℕ) (xs : List A)
      → get_elem? (within_limit z xs) i ≡ (if lets_through z i then get_elem? xs i else none)
  get_elem?-within_limit (pos zero) i xs = refl
  get_elem?-within_limit (pos (suc n)) i xs = get_elem?-take (suc n) i xs
  get_elem?-within_limit (negsuc n) i xs = refl

Result-cases :
    {A : Type 0} (r : Result A)
    → ((x : A) × (r ≡ ok x)) ⊎ (((e : Exc) × (r ≡ raise e)) ⊎ (r ≡ Result.out_of_bounds))
Result-cases (ok x) = inl (x, refl)
Result-cases (raise e) = inr (inl (e, refl))
Result-cases Result.out_of_bounds = inr (inr refl)

-- The page of ordered items, place by place: the item at place i is the one at place i behind the
-- offset, if the limit lets it through.
abbrev pub IsPage : {A : Type 0} → ℤ → ℤ → List A → List A → Type 0
IsPage offset limit ordered page =
    (i : ℕ)
    → get_elem? page i
      ≡ (if lets_through limit i then get_elem? ordered (skipped offset + i) else none)

within_limit-IsPage :
    {A : Type 0} (offset limit : ℤ) (ordered : List A)
    → IsPage offset limit ordered (within_limit limit (behind_offset offset ordered))
within_limit-IsPage offset limit ordered i =
    get_elem?-within_limit limit i (behind_offset offset ordered)
    ∙ ap (λ o. if lets_through limit i then o else none) (get_elem?-behind_offset offset i ordered)

module _ {Obj : Type 0} (py : Runtime Obj) where
  -- Behind the projection, apply_options returns the number of items where count is asked for, whatever
  -- the other options are and whether or not the items could be ordered. Otherwise, where the items
  -- could be ordered, it returns the page of the ordered items, in which an offset or a limit that is
  -- not positive does nothing; and where the ordering fails, it fails alike.
  pub finish_options_lem :
      (list_sort : ListSort (Obj × ℤ)) (co : CompiledOptions Obj) (rv : List Obj)
      → ((co.count_flag ≡ true) × (finish_options py list_sort co rv ≡ ok (count_of (length rv))))
        ⊎ ((co.count_flag ≡ false)
            × (((ordered page : List Obj) × (apply_order py list_sort co.order_specs rv
                    ≡ ok ordered)
                  × (finish_options py list_sort co rv ≡ ok (items_of page))
                  × IsPage co.offset co.limit ordered page)
                ⊎ (((e : Exc) × (apply_order py list_sort co.order_specs rv ≡ raise e)
                      × (finish_options py list_sort co rv ≡ raise e))
                    ⊎ ((apply_order py list_sort co.order_specs rv ≡ Result.out_of_bounds)
                        × (finish_options py list_sort co rv ≡ Result.out_of_bounds)))))
  unfolding finish_options
  finish_options_lem list_sort co rv = elim (Bool-cases co.count_flag) [
    | inl counted ↦ inl (counted, rw counted refl)
    | inr listed ↦ inr (
      listed,
      elim (Result-cases (apply_order py list_sort co.order_specs rv)) [
        | inl (ordered, sorts) ↦ inl (
          ordered,
          within_limit co.limit (behind_offset co.offset ordered),
          sorts,
          rw (listed, sorts) refl,
          within_limit-IsPage co.offset co.limit ordered,
        )
        | inr (inl (e, fails)) ↦ inr (inl (e, fails, rw (listed, fails) refl))
        | inr (inr fails) ↦ inr (inr (fails, rw (listed, fails) refl))
      ],
    )
  ]
