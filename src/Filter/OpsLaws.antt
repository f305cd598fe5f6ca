-- ===== src/Filter/OpsLaws.antt =====
-- The operators of src/cext/filter_utils/filter_list.c: which texts name them, and what the negated
-- ones answer.
use truenas_pyos.Prelude.{
  true, ◌≡◌, refl, ap, sym, ◌∙◌, ◌↔◌, ◌⊎◌, inl, inr, Bool, false, Option, none, some, ◌∷◌,
  if◌then◌else◌, Bool-cases,
}
use truenas_pyos.Prelude.Bytes.{c_string}
use truenas_pyos.Py.{Result, ok, raise, out_of_bounds, value_error, unknown_operator, ◌>>=◌}
use truenas_pyos.Filter.Objects.{Str, codes, Runtime}
use truenas_pyos.Filter.Ops.{
  OpCode, op_table, find_op, take_ci, parse_op, SimpleFilter, negated, c_casefold, is_none,
  op_result, apply_op, op_in, op_nin, op_rin, op_rnin, op_sw, op_nsw, op_ew, op_new,
}
use truenas_pyos.Filter.OpNames.{
  op_name, op_text, find_op_sound, op_table-names, take_ci-eq, find_op-op_name, take_ci-op_text,
}

-- What parse_op makes of the operator found.
abbrev parsed : Bool → Option OpCode → Result (OpCode × Bool)
parsed ci (some op) = ok (op, ci)
parsed ci none = raise (value_error unknown_operator)

parse_op-parsed :
    (s : Str)
    → parse_op s ≡ parsed (take_ci (c_string s)).0 (find_op op_table (take_ci (c_string s)).1)
unfolding parse_op
parse_op-parsed s = refl

parsed-eq-ok :
    (ci : Bool) (found : Option OpCode) (op : OpCode) (b : Bool)
    → parsed ci found ≡ ok (op, b)
    → (found ≡ some op) × (ci ≡ b)
parsed-eq-ok ci none op b e = cc
parsed-eq-ok ci (some o) op b e = (cc, cc)

op_text-take_ci :
    (s : Str) (op : OpCode) (ci : Bool)
    → (take_ci s).0 ≡ ci
    → (take_ci s).1 ≡ codes (op_name op)
    → s ≡ op_text op ci
unfolding op_text
op_text-take_ci s op ci f n = elim (take_ci-eq s) [
  | inl e ↦ rw (sym (ap (λ r. r.0) (sym e) ∙ f)) (ap (λ r. r.1) (sym e) ∙ n)
  | inr (rest, e, t) ↦
      e ∙ rw (sym (ap (λ r. r.0) (sym t) ∙ f)) (ap (λ r. b'C' ∷ r) (ap (λ r. r.1) (sym t) ∙ n))
]

parse_op-op_text :
    (s : Str) (op : OpCode) (ci : Bool) → c_string s ≡ op_text op ci → parse_op s ≡ ok (op, ci)
parse_op-op_text s op ci e =
    parse_op-parsed s ∙ rw (e, take_ci-op_text op ci, find_op-op_name op) refl

op_text-parse_op :
    (s : Str) (op : OpCode) (ci : Bool) → parse_op s ≡ ok (op, ci) → c_string s ≡ op_text op ci
op_text-parse_op s op ci e =
    let name = (take_ci (c_string s)).1 in
    let found = parsed-eq-ok _ (find_op op_table name) op ci (sym (parse_op-parsed s) ∙ e) in
    op_text-take_ci (c_string s) op ci found.1
      (find_op_sound op_table name op op_table-names found.0)

parsed-cases :
    (ci : Bool) (found : Option OpCode)
    → (parsed ci found ≡ raise (value_error unknown_operator))
      ⊎ (op : OpCode) × (b : Bool) × (parsed ci found ≡ ok (op, b))
parsed-cases ci none = inl refl
parsed-cases ci (some op) = inr (op, ci, refl)

-- `parse_op` returns an operator and its case flag exactly on the operator's own text, behind a 'C'
-- where the flag is set; on any other text it raises the `ValueError` of an unknown operator.
pub parse_op_iff :
    (s : Str)
    → ((op : OpCode) → (ci : Bool) → (parse_op s ≡ ok (op, ci)) ↔ (c_string s ≡ op_text op ci))
      × ((parse_op s ≡ raise (value_error unknown_operator))
          ⊎ (op : OpCode) × (ci : Bool) × (parse_op s ≡ ok (op, ci)))
parse_op_iff s = (
  λ op ci. (op_text-parse_op s op ci, parse_op-op_text s op ci),
  rw (parse_op-parsed s) (parsed-cases _ _),
)

-- An operator and the one that negates it.
pub data Negation : OpCode → OpCode → Type 0 where
  in_nin : Negation op_in op_nin
  rin_rnin : Negation op_rin op_rnin
  sw_nsw : Negation op_sw op_nsw
  ew_new : Negation op_ew op_new

abbrev pub with_op : {Obj : Type 0} → OpCode → SimpleFilter Obj → SimpleFilter Obj
with_op op sf = record {
  parts = sf.parts;
  op = op;
  ci = sf.ci;
  value = sf.value;
  value_ci = sf.value_ci;
  re_match = sf.re_match;
}

module _ {Obj : Type 0} (py : Runtime Obj) where
  op_result-Negation :
      {op neg : OpCode} (sf : SimpleFilter Obj) (val source cmp_val : Obj)
      → Negation op neg
      → op_result py (with_op neg sf) neg val source cmp_val ≡ (
          if is_none py val
          then ok false
          else negated (op_result py (with_op op sf) op val source cmp_val))
  unfolding op_result
  op_result-Negation sf val source cmp_val in_nin = elim (Bool-cases (is_none py val)) [
    | inl e ↦ rw e refl
    | inr e ↦ rw e refl
  ]
  op_result-Negation sf val source cmp_val rin_rnin = elim (Bool-cases (is_none py val)) [
    | inl e ↦ rw e refl
    | inr e ↦ rw e refl
  ]
  op_result-Negation sf val source cmp_val sw_nsw = elim (Bool-cases (is_none py val)) [
    | inl e ↦ rw e refl
    | inr e ↦ rw e refl
  ]
  op_result-Negation sf val source cmp_val ew_new = elim (Bool-cases (is_none py val)) [
    | inl e ↦ rw e refl
    | inr e ↦ rw e refl
  ]

  negated->>= :
      (m : Result Obj) (f g : Obj → Result Bool)
      → ((x : Obj) → g x ≡ negated (f x))
      → (m >>= g) ≡ negated (m >>= f)
  unfolding negated
  negated->>= (ok x) f g h = h x
  negated->>= (raise e) f g h = refl
  negated->>= out_of_bounds f g h = refl

  -- A negated operator (`nin`, `rnin`, `!^`, `!$`) answers false on `None`, and on any other value the
  -- negation of what its operator answers, with the same exception where that raises one. A filter
  -- that ignores case has a casefolded value, as compile_simple gives it.
  pub apply_op-Negation :
      {op neg : OpCode} (sf : SimpleFilter Obj) (val folded : Obj)
      → Negation op neg
      → (sf.ci ≡ true → sf.value_ci ≡ some folded)
      → apply_op py (with_op neg sf) val
        ≡ (if is_none py val then ok false else negated (apply_op py (with_op op sf) val))
  unfolding apply_op
  apply_op-Negation {op = op} {neg = neg} sf val folded n folds = elim (Bool-cases sf.ci) [
    | inl c ↦ elim (Bool-cases (is_none py val)) [
      | inl e ↦ rw (c, folds c, e) (op_result-Negation sf val val folded n ∙ rw e refl)
      | inr e ↦
          rw (c, folds c, e)
            (negated->>= (c_casefold py val) _ _
              (λ x. op_result-Negation sf val x folded n ∙ rw e refl))
    ]
    | inr c ↦ rw c (op_result-Negation sf val val sf.value n)
  ]
