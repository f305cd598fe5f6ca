-- ===== src/Filter/OpNames.antt =====
-- src/cext/filter_utils/filter_list.c: the names of the operators in the table that parse_op reads.
use truenas_pyos.Prelude.{
  ◌≡◌, refl, ap, ◌⊎◌, inl, inr, Bool, true, false, some, List, [], ◌∷◌, All, arith, String, ◌==◌,
  Bool-cases, ==_iff,
}
use truenas_pyos.Filter.Objects.{Str, codes, str_eq}
use truenas_pyos.Filter.Ops.{
  OpCode, op_table, find_op, take_ci, op_eq, op_ne, op_gt, op_ge, op_lt, op_le, op_re, op_in,
  op_nin, op_rin, op_rnin, op_sw, op_nsw, op_ew, op_new,
}

-- The text of each operator in the README's table.
unfoldable pub op_name : OpCode → String
op_name op_eq = "="
op_name op_ne = "!="
op_name op_gt = ">"
op_name op_ge = ">="
op_name op_lt = "<"
op_name op_le = "<="
op_name op_re = "~"
op_name op_in = "in"
op_name op_nin = "nin"
op_name op_rin = "rin"
op_name op_rnin = "rnin"
op_name op_sw = "^"
op_name op_nsw = "!^"
op_name op_ew = "$"
op_name op_new = "!$"

unfoldable pub op_text : OpCode → Bool → Str
unfolding op_name
op_text op true = b'C' ∷ codes (op_name op)
op_text op false = codes (op_name op)

pub str_eq_sound : (s t : Str) → str_eq s t ≡ true → s ≡ t
str_eq_sound [] [] h = refl
str_eq_sound [] (d ∷ t) h = cc
str_eq_sound (c ∷ s) [] h = cc
str_eq_sound (c ∷ s) (d ∷ t) h = ground (arith, str_eq_sound s t)

pub find_op_sound :
    (table : List (String × OpCode)) (s : Str) (op : OpCode)
    → All (λ entry. op_name entry.1 ≡ entry.0) table
    → find_op table s ≡ some op
    → s ≡ codes (op_name op)
unfolding find_op
find_op_sound [] s op h e = cc
find_op_sound ((name, o) ∷ table) s op h e =
    ground (arith, str_eq_sound s (codes name), find_op_sound table s op h.1, h.0)

pub op_table-names : All (λ entry. op_name entry.1 ≡ entry.0) op_table
unfolding op_name
op_table-names = (
  refl,
  (
    refl,
    (
      refl,
      (
        refl,
        (refl, (refl, (refl, (refl, (refl, (refl, (refl, (refl, (refl, (refl, (refl, tt))))))))))),
      ),
    ),
  ),
)

-- What `take_ci` takes off is a 'C'.
pub take_ci-eq :
    (s : Str)
    → (take_ci s ≡ (false, s)) ⊎ ((rest : Str) × (s ≡ b'C' ∷ rest) × (take_ci s ≡ (true, rest)))
unfolding take_ci
take_ci-eq [] = inl refl
take_ci-eq (c ∷ s) = elim (Bool-cases (c == b'C')) [
  | inl e ↦ inr (s, ap (λ x. x ∷ s) ((==_iff c b'C').0 e), rw e refl)
  | inr e ↦ inl (rw e refl)
]

pub find_op-op_name : (op : OpCode) → find_op op_table (codes (op_name op)) ≡ some op
unfolding find_op op_name
find_op-op_name op_eq = refl
find_op-op_name op_ne = refl
find_op-op_name op_gt = refl
find_op-op_name op_ge = refl
find_op-op_name op_lt = refl
find_op-op_name op_le = refl
find_op-op_name op_re = refl
find_op-op_name op_in = refl
find_op-op_name op_nin = refl
find_op-op_name op_rin = refl
find_op-op_name op_rnin = refl
find_op-op_name op_sw = refl
find_op-op_name op_nsw = refl
find_op-op_name op_ew = refl
find_op-op_name op_new = refl

pub take_ci-op_text : (op : OpCode) (ci : Bool) → take_ci (op_text op ci) ≡ (ci, codes (op_name op))
unfolding take_ci op_text op_name
take_ci-op_text op true = refl
take_ci-op_text op_eq false = refl
take_ci-op_text op_ne false = refl
take_ci-op_text op_gt false = refl
take_ci-op_text op_ge false = refl
take_ci-op_text op_lt false = refl
take_ci-op_text op_le false = refl
take_ci-op_text op_re false = refl
take_ci-op_text op_in false = refl
take_ci-op_text op_nin false = refl
take_ci-op_text op_rin false = refl
take_ci-op_text op_rnin false = refl
take_ci-op_text op_sw false = refl
take_ci-op_text op_nsw false = refl
take_ci-op_text op_ew false = refl
take_ci-op_text op_new false = refl
