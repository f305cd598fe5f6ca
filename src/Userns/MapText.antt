-- ===== src/Userns/MapText.antt =====
-- src/cext/os/userns.c: decimal numbers as snprintf prints them, and how a map is read.
use truenas_pyos.Prelude.{
  ℕ, zero, suc, ◌+◌, ◌*◌, ◌/◌, ◌%◌, ◌^◌, ◌≤◌, ◌<◌, ◌≡◌, ap, ◌∙◌, inl, inr, Option, none, some, List,
  [], ◌∷◌, ◌++◌, length, ltb, ◌==◌, if◌then◌else◌, arith, Bool-cases, length-append, ltb→lt,
  leb_of_le,
}
use mathlib.Core.List.{append_assoc}
use truenas_pyos.Filter.Path.{read_digits}
use truenas_pyos.Userns.Maps.{MapEntry, decimal, digits_from}

-- 10 ^ n, by recursion.
abbrev ten_to : ℕ → ℕ
ten_to zero = 1
ten_to (suc n) = 10 * ten_to n

read_digits-digit :
    (acc d : ℕ) (rest : List ℕ)
    → d < 10
    → read_digits acc ((b'0' + d) ∷ rest) ≡ read_digits (acc * 10 + d) rest
unfolding read_digits
read_digits-digit acc d rest h =
    rw (leb_of_le b'0' (b'0' + d) (omega arith), leb_of_le (b'0' + d) b'9' (omega arith))
      (ap (λ a. read_digits a rest) (omega arith))

pub length-digits_from : (fuel n : ℕ) → length (digits_from fuel n) ≤ fuel
unfolding digits_from
length-digits_from zero n = omega arith
length-digits_from (suc fuel) n = elim (Bool-cases (ltb n 10)) [
  | inl b ↦ rw b (omega arith)
  | inr b ↦
      let front = length-digits_from fuel (n / 10) in
      let l = length-append (digits_from fuel (n / 10)) ((b'0' + n % 10) ∷ []) in rw b (omega arith)
]

read_digits-digits_from :
    (fuel n : ℕ) (rest : List ℕ)
    → n < ten_to fuel
    → read_digits 0 (digits_from fuel n ++ rest) ≡ read_digits n rest
unfolding digits_from
read_digits-digits_from zero n rest h = ap (λ a. read_digits a rest) (omega arith)
read_digits-digits_from (suc fuel) n rest h = elim (Bool-cases (ltb n 10)) [
  | inl b ↦
      let small = ltb→lt n 10 b in
      rw b (
        read_digits-digit 0 (n % 10) rest (omega arith)
        ∙ ap (λ a. read_digits a rest) (omega arith))
  | inr b ↦
      rw (b, append_assoc (digits_from fuel (n / 10)) ((b'0' + n % 10) ∷ []) rest)
        (read_digits-digits_from fuel (n / 10) ((b'0' + n % 10) ∷ rest) (omega arith)
          ∙ read_digits-digit (n / 10) (n % 10) rest (omega arith)
          ∙ ap (λ a. read_digits a rest) (omega arith))
]

-- What comes behind a byte.
abbrev pub behind : ℕ → List ℕ → Option (List ℕ)
behind c [] = none
behind c (d ∷ s) = if c == d then some s else none

abbrev pub with_number : ℕ → Option (List ℕ) → Option (ℕ × List ℕ)
with_number n none = none
with_number n (some later) = some (n, later)

abbrev pub number_then : ℕ → ℕ × List ℕ → Option (ℕ × List ℕ)
number_then c (n, rest) = with_number n (behind c rest)

-- A number up to the byte `c`, and what is behind.
unfoldable pub read_number : ℕ → List ℕ → Option (ℕ × List ℕ)
read_number c s = number_then c (read_digits 0 s)

-- A line of a map as the manual page user_namespaces(7) describes it: three numbers.
unfoldable pub read_line : List ℕ → Option (MapEntry × List ℕ)
read_line s = elim (read_number b' ' s) [
  | none ↦ none
  | some (i, s1) ↦ elim (read_number b' ' s1) [
    | none ↦ none
    | some (o, s2) ↦ elim (read_number b'\n' s2) [
      | none ↦ none
      | some (l, s3) ↦ some (record { inside = i; outside = o; map_length = l }, s3)
    ]
  ]
]

unfoldable pub read_map : ℕ → List ℕ → List MapEntry
read_map zero s = []
read_map (suc n) s = elim (read_line s) [ none ↦ [] | some (e, rest) ↦ e ∷ read_map n rest ]

pub read_number-space :
    (n : ℕ) (rest : List ℕ)
    → n < 2 ^ 32
    → read_number b' ' (decimal n ++ (b' ' ∷ rest)) ≡ some (n, rest)
unfolding read_number read_digits
read_number-space n rest h =
    ap (number_then b' ') (read_digits-digits_from 10 n (b' ' ∷ rest) (omega arith))

pub read_number-newline :
    (n : ℕ) (rest : List ℕ)
    → n < 2 ^ 32
    → read_number b'\n' (decimal n ++ (b'\n' ∷ rest)) ≡ some (n, rest)
unfolding read_number read_digits
read_number-newline n rest h =
    ap (number_then b'\n') (read_digits-digits_from 10 n (b'\n' ∷ rest) (omega arith))
