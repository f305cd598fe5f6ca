-- ===== src/Access/PipeLaws.antt =====
-- `drain_pipe` against a description of the byte stream, and what `write_all` leaves on the pipe.
use mathlib.Core.List.{append_assoc, append-nil}
use truenas_pyos.Prelude.{
  ℕ, zero, suc, ◌+◌, ◌/◌, ◌≤◌, ◌<◌, ◌≡◌, ◌⊎◌, refl, ap, sym, ◌∙◌, inl, inr, Option, none, some,
  List, [], ◌∷◌, ◌++◌, take, drop, length, All, arith, ◌==◌, Bool-cases, length-append, length-drop,
  length-take, take-append-drop, drop-append,
}
use truenas_pyos.Access.Pipe.{
  Drained, FailureRec, ReadStep, Transfer, at_end, cons_record, drain_error, drain_loop, drain_pipe,
  drain_read, drained, eproto, fails, interrupted, moves, read_size, rec_of_bytes, rec_sz, short,
  whole,
}

-- A pipe's bytes as records of 12 bytes each; bytes that are left over are a protocol error.
unfoldable pub chunk : ℕ → List ℕ → Drained
unfolding rec_of_bytes
chunk zero [] = drained []
chunk zero (b ∷ rest) = drain_error eproto
chunk (suc n) p = cons_record (rec_of_bytes (take rec_sz p)) (chunk n (drop rec_sz p))

abbrev pub records_of : List ℕ → Drained
records_of p = chunk (length p / rec_sz) p

-- A call that is cut short or interrupted, but does not fail.
abbrev pub IsHarmless : Transfer → Type 0
IsHarmless (moves n) = Unit {0}
IsHarmless interrupted = Unit {0}
IsHarmless (fails e) = ⊥

take-append : (xs ys : List ℕ) → take (length xs) (xs ++ ys) ≡ xs
take-append [] ys = refl
take-append (x ∷ xs) ys = ap (λ l. x ∷ l) (take-append xs ys)

pub records_of-whole :
    (more left : List ℕ)
    → length more ≡ 12
    → records_of (more ++ left) ≡ cons_record (rec_of_bytes more) (records_of left)
unfolding chunk
records_of-whole more left h =
    let count : length (more ++ left) / 12 ≡ suc (length left / 12) =
      omega (arith, length-append more left) in
    let first : take 12 (more ++ left) ≡ more = rw h at (take-append more left) in
    let rest : drop 12 (more ++ left) ≡ left = rw h at (drop-append more left) in
    rw (count, first, rest) refl

records_of-short :
    (b : ℕ) (got : List ℕ) → length (b ∷ got) < 12 → records_of (b ∷ got) ≡ drain_error eproto
unfolding chunk
records_of-short b got h =
    let none_whole : length (b ∷ got) / 12 ≡ 0 = omega arith in rw none_whole refl

-- Where a read of some bytes leads.
abbrev Progress : List ℕ → List ℕ → ReadStep → Type 0
Progress got pipe step =
    (more : List ℕ) × (left : List ℕ) × (more ++ left ≡ got ++ pipe)
    × (length left < length pipe)
    × (((step ≡ whole (rec_of_bytes more) left) × (length more ≡ 12))
        ⊎ ((step ≡ short more left) × (length more < 12)))

drain_read-Progress :
    (n b : ℕ) (pipe got : List ℕ)
    → length got < 12
    → Progress got (b ∷ pipe) (drain_read n (b ∷ pipe) got)
unfolding drain_read
drain_read-Progress n b pipe got h =
    let k = read_size n got (b ∷ pipe) in
    let more = got ++ take k (b ∷ pipe) in
    let left = drop k (b ∷ pipe) in
    let fits : k ≤ length (b ∷ pipe) = omega arith in
    let size : length more ≡ length got + k =
      omega (arith, length-append got (take k (b ∷ pipe)), length-take k (b ∷ pipe) fits) in
    let same : more ++ left ≡ got ++ (b ∷ pipe) =
      append_assoc got (take k (b ∷ pipe)) left
      ∙ ap (λ l. got ++ l) (take-append-drop k (b ∷ pipe)) in
    (
      more,
      left,
      same,
      omega (arith, length-drop k (b ∷ pipe)),
      elim (Bool-cases (length more == 12)) [
        | inl e ↦ inl (rw e refl, ground arith)
        | inr e ↦ inr (rw e refl, ground arith)
      ],
    )

-- From a state with fewer than 12 bytes of a record, and with fuel left for the script and the pipe.
abbrev Drains : ℕ → List Transfer → Type 0
Drains fuel script =
    (pipe got : List ℕ)
    → length got < 12
    → length script + length pipe < fuel
    → drain_loop fuel script pipe got ≡ some (records_of (got ++ pipe))

-- One read that moves bytes, as the last of the script's or beyond it.
abbrev after_read : ReadStep → (List ℕ → List ℕ → Option Drained) → Option Drained
after_read step loop = elim step [
  | at_end result ↦ some result
  | short more left ↦ loop left more
  | whole r left ↦ elim (loop left []) [ none ↦ none | some rest ↦ some (cons_record r rest) ]
]

-- A whole record stands before the records of the rest.
after_read-whole :
    (r : FailureRec) (left : List ℕ) (loop : List ℕ → List ℕ → Option Drained) {rest : Drained}
    → loop left [] ≡ some rest
    → after_read (whole r left) loop ≡ some (cons_record r rest)
after_read-whole r left loop e = ap put e
  where
    put : Option Drained → Option Drained
    put none = none
    put (some rest) = some (cons_record r rest)

after_read-records_of :
    (fuel : ℕ) (script : List Transfer) (n : ℕ)
    → Drains fuel script
    → (pipe got : List ℕ) → length got < 12
    → length script + length pipe ≤ fuel
    → after_read (drain_read n pipe got) (drain_loop fuel script) ≡ some (records_of (got ++ pipe))
unfolding drain_read chunk
after_read-records_of fuel script n drains [] [] h f = refl
after_read-records_of fuel script n drains [] (g ∷ got) h f =
    rw (append-nil got) (ap some (sym (records_of-short g got h)))
after_read-records_of fuel script n drains (b ∷ pipe) got h f =
    let (more, left, same, less, cases) = drain_read-Progress n b pipe got h in
    rw (sym same) (elim cases [
      | inl (e, size) ↦
          rw (e, records_of-whole more left size)
            (after_read-whole (rec_of_bytes more) left (drain_loop fuel script)
              (drains left [] (omega arith) (omega arith)))
      | inr (e, size) ↦ rw e (drains left more size (omega arith))
    ])

drain_loop-records_of :
    (fuel : ℕ) (script : List Transfer) → All IsHarmless script → Drains fuel script
unfolding drain_loop
drain_loop-records_of zero script h pipe got g f = absurd (omega arith)
drain_loop-records_of (suc fuel) [] h pipe got g f =
    after_read-records_of fuel [] rec_sz (drain_loop-records_of fuel [] tt) pipe got g (omega arith)
drain_loop-records_of (suc fuel) (interrupted ∷ script) h pipe got g f =
    drain_loop-records_of fuel script h.1 pipe got g (omega arith)
drain_loop-records_of (suc fuel) (fails e ∷ script) h pipe got g f = absurd h.0
drain_loop-records_of (suc fuel) (moves n ∷ script) h pipe got g f =
    after_read-records_of fuel script n (drain_loop-records_of fuel script h.1) pipe got g
      (omega arith)

-- However the kernel cuts and interrupts the reads, as long as none fails, `drain_pipe` ends, with
-- the records of 12 bytes each that the pipe holds, and with EPROTO when bytes are left over.
pub drain_pipe-records_of :
    (script : List Transfer) (pipe : List ℕ)
    → All IsHarmless script
    → drain_pipe script pipe ≡ some (records_of pipe)
unfolding drain_pipe
drain_pipe-records_of script pipe h =
    drain_loop-records_of (length script + length pipe + 1) script h pipe [] (omega arith)
      (omega arith)
