-- ===== src/Filter/RunLaws.antt =====
-- src/cext/filter_utils/filter_list.c: filter_list_run against match_item, item by item.
use truenas_pyos.Prelude.{
  ◌≡◌, refl, ap, sym, ◌∙◌, Bool, true, false, List, [], ◌∷◌, ◌++◌, Option, none, some, length,
  filter, All, if◌then◌else◌,
}
use mathlib.Core.List.{append-nil}
use truenas_pyos.Py.{Result, ok, raise, Exc, ◌>>=◌, ◌>>◌}
use truenas_pyos.Filter.Objects.{Runtime}
use truenas_pyos.Filter.Compile.{CompiledFilter}
use truenas_pyos.Filter.Eval.{check_item_model, eval_all, run_items, filter_list_run, match_item}

module _ {Obj : Type 0} (py : Runtime Obj) (compiled : List (CompiledFilter Obj))
    (model : Obj) where
  -- `match_item` answers every one of the items, by the test `p`.
  abbrev pub Answers : (Obj → Bool) → List Obj → Type 0
  Answers p = All (λ item. match_item py item compiled model ≡ ok (p item))

  -- One round of the loop, by the answer of match_item.
  abbrev after : Bool → Obj → Result (List Obj) → Bool → Result (List Obj)
  after shortcircuit item rest matched =
      if matched
      then if shortcircuit then ok (item ∷ []) else (rest >>= λ found. ok (item ∷ found))
      else rest

  run_items-match_item :
      (shortcircuit : Bool) (ending : Option Exc) (item : Obj) (items : List Obj)
      → run_items py compiled shortcircuit model ending (item ∷ items) ≡ (
          match_item py item compiled model
          >>= after shortcircuit item (run_items py compiled shortcircuit model ending items))
  unfolding run_items match_item
  run_items-match_item shortcircuit ending item items =
      assoc (check_item_model py item model (length compiled))
    where
      assoc :
          (m : Result (Unit {0}))
          → (m >>= λ _.
              eval_all py compiled item
              >>= after shortcircuit item (run_items py compiled shortcircuit model ending items))
            ≡ ((m >> eval_all py compiled item)
                >>= after shortcircuit item (run_items py compiled shortcircuit model ending items))
      assoc (ok u) = refl
      assoc (raise e) = refl
      assoc Result.out_of_bounds = refl

  -- The items kept before the rest of the loop.
  abbrev pub kept : List Obj → Result (List Obj) → Result (List Obj)
  kept before rest = rest >>= λ found. ok (before ++ found)

  kept-nil : (rest : Result (List Obj)) → rest ≡ kept [] rest
  kept-nil (ok found) = refl
  kept-nil (raise e) = refl
  kept-nil Result.out_of_bounds = refl

  after-kept :
      (item : Obj) (before : List Obj) (rest : Result (List Obj)) (matched : Bool)
      → after false item (kept before rest) matched
        ≡ kept (if matched then item ∷ before else before) rest
  after-kept item before (ok found) true = refl
  after-kept item before (raise e) true = refl
  after-kept item before Result.out_of_bounds true = refl
  after-kept item before rest false = refl

  run_items-Answers :
      (p : Obj → Bool) (ending : Option Exc) (before later : List Obj)
      → Answers p before
      → run_items py compiled false model ending (before ++ later)
        ≡ kept (filter p before) (run_items py compiled false model ending later)
  run_items-Answers p ending [] later h = kept-nil _
  run_items-Answers p ending (item ∷ before) later h =
      run_items-match_item false ending item (before ++ later)
      ∙ rw (h.0, run_items-Answers p ending before later h.1)
          (after-kept item (filter p before) _ (p item))

  run_items-Answers_all :
      (p : Obj → Bool) (ending : Option Exc) (items : List Obj)
      → Answers p items
      → run_items py compiled false model ending items
        ≡ kept (filter p items) (run_items py compiled false model ending [])
  run_items-Answers_all p ending items h =
      ap (run_items py compiled false model ending) (sym (append-nil items))
      ∙ run_items-Answers p ending items [] h

  -- Where `match_item` answers every item, `filter_list_run` without shortcircuit returns the items it
  -- accepts, in their order.
  pub filter_list_run-filter :
      (p : Obj → Bool) (items : List Obj)
      → Answers p items
      → filter_list_run py (ok (record { items = items; ending = none })) compiled false model
        ≡ ok (filter p items)
  unfolding filter_list_run run_items
  filter_list_run-filter p items h =
      run_items-Answers_all p none items h ∙ (ap ok (append-nil (filter p items)))

  -- The next thing to happen raises `e`: `match_item` on the next item, or the end of the iteration.
  abbrev pub RaisesNext : Exc → List Obj → Option Exc → Type 0
  RaisesNext e [] ending = ending ≡ some e
  RaisesNext e (item ∷ later) ending = match_item py item compiled model ≡ raise e

  -- Without shortcircuit, the first item that `match_item` raises on ends the run with its exception,
  -- and so does the iterator's exception behind the last item: nothing of what was found is returned.
  pub filter_list_run-raise :
      (p : Obj → Bool) (items rest : List Obj) (ending : Option Exc) (e : Exc)
      → Answers p items
      → RaisesNext e rest ending
      → filter_list_run py
          (ok (record { items = items ++ rest; ending = ending }))
          compiled
          false
          model
        ≡ raise e
  unfolding filter_list_run run_items
  filter_list_run-raise p items [] ending e h raises =
      run_items-Answers p ending items [] h ∙ rw raises refl
  filter_list_run-raise p items (item ∷ later) ending e h raises =
      run_items-Answers p ending items (item ∷ later) h
      ∙ rw (run_items-match_item false ending item later, raises) refl

  -- With shortcircuit, the run stops at the first item that `match_item` accepts and returns it alone,
  -- whatever the items behind it and the end of the iteration would give.
  pub filter_list_run-shortcircuit :
      (before : List Obj) (item : Obj) (later : List Obj) (ending : Option Exc)
      → Answers (λ _. false) before
      → match_item py item compiled model ≡ ok true
      → filter_list_run py
          (ok (record { items = before ++ (item ∷ later); ending = ending }))
          compiled
          true
          model
        ≡ ok (item ∷ [])
  unfolding filter_list_run
  filter_list_run-shortcircuit [] item later ending h m =
      run_items-match_item true ending item later ∙ rw m refl
  filter_list_run-shortcircuit (x ∷ before) item later ending h m =
      run_items-match_item true ending x (before ++ (item ∷ later))
      ∙ rw h.0 (filter_list_run-shortcircuit before item later ending h.1 m)
