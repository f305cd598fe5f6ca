-- ===== src/Filter/DepthLaws.antt =====
-- src/cext/filter_utils/filter_list.c: the depth of a filter's tree, which compile_filter and
-- eval_filter both limit, and the answers under the limit.
use truenas_pyos.Prelude.{
  ℕ, zero, suc, ◌+◌, ◌*◌, ◌≤◌, ◌<◌, max, ◌≡◌, refl, sym, Bool, true, false, arith, ◌==◌,
  if◌then◌else◌, ltb_of_le,
}
use truenas_pyos.Py.{Result, ok, raise, Exc, recursion_error, ◌>>=◌, >>=-eq-ok}
use truenas_pyos.Filter.Objects.{Runtime}
use truenas_pyos.Prelude.{if◌then◌else◌, none, some}
use truenas_pyos.Filter.Objects.{as_utf8}
use truenas_pyos.Filter.Path.{text_of, split_path}
use truenas_pyos.Filter.Ops.{SimpleFilter, parse_op, c_casefold, is_none}
use truenas_pyos.Filter.Alias.{resolve_alias_path}
use truenas_pyos.Filter.Alias.{filter_max_depth}
use truenas_pyos.Filter.Compile.{
  CompiledFilter, Children, is_sequence, compile_regex, compile_simple, compile_children,
  compile_and_branch, compile_branch, compile_node, compile_filter, leaf, or_node, and_node, nil,
  cons,
}
use truenas_pyos.Filter.Eval.{eval_parts, eval_filter, eval_or, eval_and}
use truenas_pyos.Filter.EvalLaws.{eval_simple_from-eval_parts}

-- The levels of compound nodes of a tree.
unfoldable mutual
  pub height : {Obj : Type 0} → CompiledFilter Obj → ℕ
  height (leaf sf) = 0
  height (or_node ch) = suc (height_of ch)
  height (and_node ch) = suc (height_of ch)

  pub height_of : {Obj : Type 0} → Children Obj → ℕ
  height_of nil = 0
  height_of (cons c cs) = max (height c) (height_of cs)

module _ {Obj : Type 0} (py : Runtime Obj) where
  -- The answer of a tree without a limit: an OR is settled by its first true branch, an AND by its
  -- first false one.
  unfoldable mutual
    pub answer : Obj → CompiledFilter Obj → Result Bool
    answer item (leaf sf) = eval_parts py sf sf.parts item
    answer item (or_node ch) = some_true item ch
    answer item (and_node ch) = all_true item ch

    pub some_true : Obj → Children Obj → Result Bool
    some_true item nil = ok false
    some_true item (cons c cs) = answer item c >>= λ r. if r then ok true else some_true item cs

    pub all_true : Obj → Children Obj → Result Bool
    all_true item nil = ok true
    all_true item (cons c cs) = answer item c >>= λ r. if r then all_true item cs else ok false

  mutual
    unfolding eval_filter answer height

    eval_filter-answer :
        (item : Obj) (c : CompiledFilter Obj) (depth : ℕ)
        → depth + height c ≤ filter_max_depth
        → eval_filter py item c depth ≡ answer item c
    eval_filter-answer item (leaf sf) depth h =
        rw (ltb_of_le filter_max_depth depth (omega arith))
          (eval_simple_from-eval_parts py sf sf.parts item)
    eval_filter-answer item (or_node ch) depth h =
        rw (ltb_of_le filter_max_depth depth (omega arith))
          (eval_or-some_true item ch depth (omega arith))
    eval_filter-answer item (and_node ch) depth h =
        rw (ltb_of_le filter_max_depth depth (omega arith))
          (eval_and-all_true item ch depth (omega arith))

    eval_or-some_true :
        (item : Obj) (ch : Children Obj) (depth : ℕ)
        → depth + height_of ch < filter_max_depth
        → eval_or py item ch depth ≡ some_true item ch
    eval_or-some_true item nil depth h = refl
    eval_or-some_true item (cons c cs) depth h =
        let one = eval_filter-answer item c (depth + 1) (omega arith) in
        let rest = eval_or-some_true item cs depth (omega arith) in rw (one, rest) refl

    eval_and-all_true :
        (item : Obj) (ch : Children Obj) (depth : ℕ)
        → depth + height_of ch < filter_max_depth
        → eval_and py item ch depth ≡ all_true item ch
    eval_and-all_true item nil depth h = refl
    eval_and-all_true item (cons c cs) depth h =
        let one = eval_filter-answer item c (depth + 1) (omega arith) in
        let rest = eval_and-all_true item cs depth (omega arith) in rw (one, rest) refl

-- What a run returns satisfies P.
abbrev Returns {ℓ κ} : {A : Type ℓ} → (A → Type κ) → Result A → Type (ℓ ⊔ κ)
Returns {A = A} P m = (y : A) → m ≡ ok y → P y

Returns-ok {ℓ κ} : {A : Type ℓ} (P : A → Type κ) (x : A) → P x → Returns P (ok x)
Returns-ok P x h y e = let q : x ≡ y = cc in rw (sym q) h

Returns->>= {ℓ κ μ} :
    {A : Type ℓ} {B : Type κ} (P : B → Type μ) (m : Result A) (f : A → Result B)
    → ((x : A) → Returns P (f x))
    → Returns P (m >>= f)
Returns->>= P (ok x) f h = h x
Returns->>= P (raise e) f h = λ y r. cc
Returns->>= P Result.out_of_bounds f h = λ y r. cc

Returns-raise {ℓ κ} : {A : Type ℓ} (P : A → Type κ) (e : Exc) → Returns P (raise e)
Returns-raise P e y r = cc

Returns-if {ℓ κ} :
    {A : Type ℓ} (P : A → Type κ) (b : Bool) (m n : Result A)
    → Returns P m
    → Returns P n
    → Returns P (if b then m else n)
Returns-if P true m n h k = h
Returns-if P false m n h k = k

module _ {Obj : Type 0} (py : Runtime Obj) (model : Obj) where
  -- The tree has at most `n` levels.
  abbrev Within : ℕ → CompiledFilter Obj → Type 0
  Within n c = height c ≤ n

  compile_children-Returns :
      (child : Obj → Result (CompiledFilter Obj)) (n : ℕ)
      → ((f : Obj) → Returns (Within n) (child f))
      → (seq : Obj) (left j : ℕ)
      → Returns (λ ch. height_of ch ≤ n) (compile_children py model child seq left j)
  unfolding compile_children height
  compile_children-Returns child n h seq zero j = Returns-ok _ nil (omega arith)
  compile_children-Returns child n h seq (suc left) j =
      Returns->>= _ (py.get_item seq j) _ (λ sub ch e.
        let (c, ec, e2) = >>=-eq-ok (child sub) _ e in
        let (rest, er, e3) = >>=-eq-ok (compile_children py model child seq left (j + 1)) _ e2 in
        let c_fits = h sub c ec in
        let rest_fits = compile_children-Returns child n h seq left (j + 1) rest er in
        Returns-ok (λ ch. height_of ch ≤ n) (cons c rest) (omega arith) ch e3)

  compile_branch-Returns :
      (child : Obj → Result (CompiledFilter Obj)) (n : ℕ)
      → ((f : Obj) → Returns (Within n) (child f))
      → (branch : Obj) → Returns (Within (suc n)) (compile_branch py model child branch)
  unfolding compile_branch compile_and_branch height
  compile_branch-Returns child n h branch = Returns->>= _ (py.get_item branch 0) _ (λ branch0.
      Returns-if _ (is_sequence (py.view branch0)) _ _
        (Returns->>= _ (py.size branch) _ (λ nsubs c e.
          let (ch, ec, e2) = >>=-eq-ok (compile_children py model child branch nsubs 0) _ e in
          let fits = compile_children-Returns child n h branch nsubs 0 ch ec in
          Returns-ok (Within (suc n)) (and_node ch) (omega arith) c e2))
        (λ c e. let fits = h branch c e in omega arith))

  leaf-Returns : (sf : SimpleFilter Obj) → Returns (Within 0) (ok (leaf sf))
  unfolding height
  leaf-Returns sf = Returns-ok (Within 0) (leaf sf) (omega arith)

  compile_simple-Returns : (f : Obj) → Returns (Within 0) (compile_simple py model f)
  unfolding compile_simple height
  compile_simple-Returns f = Returns->>= _ (py.get_item f 0) _ (λ name_obj.
      (Returns->>= _ (py.get_item f 1) _ (λ op_obj.
        (Returns->>= _ (py.get_item f 2) _ (λ value.
          (Returns->>= _ (text_of (py.view op_obj)) _ (λ op_text.
            (Returns->>= _ (as_utf8 op_text) _ (λ op_str.
              (Returns->>= _ (parse_op op_str) _ (λ parsed.
                (Returns->>= _ (split_path py name_obj) _ (λ split.
                  (Returns->>= _
                    (if is_none py model
                      then ok split
                      else resolve_alias_path py split (some model))
                    _
                    (λ parts.
                      (Returns->>= _
                        (if parsed.1 then (c_casefold py value >>= λ v. ok (some v)) else ok none) _
                        (λ value_ci.
                          (Returns->>= _ (compile_regex py model parsed.0 value) _
                            (λ re_match. leaf-Returns _)))))))))))))))))))

  -- What compile_filter returns with `left` levels to go has at most twice as many levels: a branch of
  -- an OR that is a conjunction takes one level to compile, and is two levels of the tree.
  pub compile_filter-height :
      (left : ℕ) (f : Obj) (c : CompiledFilter Obj)
      → compile_filter py model left f ≡ ok c
      → height c ≤ 2 * left
  unfolding compile_filter compile_node height
  compile_filter-height zero f = Returns-raise (Within 0) recursion_error
  compile_filter-height (suc left) f =
      let child = compile_filter py model left in
      Returns->>= (Within (2 * suc left)) (py.size f) _ (λ flen.
        Returns-if _ (flen == 3) _ _ (λ c e. let fits = compile_simple-Returns f c e in omega arith)
          (Returns-if _ _ _ _ (Returns-raise _ _) (
            Returns->>= _ (py.get_item f 0) _ (λ tag. Returns-if _ _ _ _ (Returns-raise _ _) (
              Returns->>= _ (py.get_item f 1) _ (λ branches.
                Returns->>= _ (py.size branches) _ (λ nbranches c e.
                  let (ch, ec, e2) =
                    >>=-eq-ok
                      (compile_children py model (compile_branch py model child) branches nbranches
                        0)
                      _ e in
                  let fits =
                    compile_children-Returns (compile_branch py model child) (suc (2 * left))
                      (compile_branch-Returns child (2 * left) (compile_filter-height left))
                      branches nbranches 0 ch ec in
                  Returns-ok (Within (2 * suc left)) (or_node ch) (omega arith) c e2)))))))

  -- A filter that compiles within 32 levels is never stopped by the depth limit of eval_filter: on
  -- every item it gives the answer of its tree read without a limit, exceptions included.
  pub eval_filter-compile_filter :
      (left : ℕ) (f item : Obj) (c : CompiledFilter Obj)
      → left ≤ 32
      → compile_filter py model left f ≡ ok c
      → eval_filter py item c 0 ≡ answer py item c
  eval_filter-compile_filter left f item c h e =
      let fits = compile_filter-height left f c e in eval_filter-answer py item c 0 (omega arith)
