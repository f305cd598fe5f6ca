-- ===== src/Nfs4/Entries.antt =====
-- The entries of an XDR buffer as a list: those of the header's count whose slots lie whole in the
-- buffer. The loops of nfs4acl.c that stop at the first cut slot are described by this list.
use truenas_pyos.Prelude.{
  ℕ, zero, suc, ◌+◌, ◌*◌, ◌^◌, ◌≤◌, ◌<◌, ◌≡◌, refl, ap, false, none, some, List, [], ◌∷◌, ◌++◌,
  drop, length, All, arith, if◌then◌else◌, Bool-cases, inl, inr, length-drop,
}
use truenas_pyos.Prelude.Bytes.{be32, read_be32, IsBytes}
use truenas_pyos.Py.{ok, load}
use truenas_pyos.Nfs4.Acl.{read_naces, slot_at}
use truenas_pyos.Nfs4.Inherit.{slot_cut}
use truenas_pyos.Nfs4.Slot.{RawAce, read_raw}
use truenas_pyos.Nfs4.Types.{nfs4_ace_sz, nfs4_hdr_sz}
use truenas_pyos.Nfs4.Wire.{IsRaw}

-- The big-endian word at the front of some bytes, 0 where there are not four.
unfoldable pub word_at : List ℕ → ℕ
word_at p = elim (read_be32 p) [ none ↦ 0 | some w ↦ w ]

pub read_be32-word_at : (p : List ℕ) → 4 ≤ length p → read_be32 p ≡ some (word_at p)
unfolding word_at read_be32
read_be32-word_at [] h = absurd (omega arith)
read_be32-word_at (a ∷ []) h = absurd (omega arith)
read_be32-word_at (a ∷ b ∷ []) h = absurd (omega arith)
read_be32-word_at (a ∷ b ∷ c ∷ []) h = absurd (omega arith)
read_be32-word_at (a ∷ b ∷ c ∷ d ∷ rest) h = refl

pub word_at-lt : (p : List ℕ) → IsBytes p → word_at p < 2 ^ 32
unfolding word_at read_be32
word_at-lt [] h = omega arith
word_at-lt (a ∷ []) h = omega arith
word_at-lt (a ∷ b ∷ []) h = omega arith
word_at-lt (a ∷ b ∷ c ∷ []) h = omega arith
word_at-lt (a ∷ b ∷ c ∷ d ∷ rest) h = omega arith

unfoldable pub raw_at : List ℕ → RawAce
raw_at p = record {
  type_word = word_at p;
  flags_word = word_at (drop 4 p);
  iflag_word = word_at (drop 8 p);
  mask_word = word_at (drop 12 p);
  who_word = word_at (drop 16 p);
}

pub read_raw-raw_at : (p : List ℕ) → 20 ≤ length p → read_raw p ≡ ok (raw_at p)
unfolding read_raw raw_at
read_raw-raw_at p h = ground (
  arith,
  read_be32-word_at p,
  read_be32-word_at (drop 4 p),
  read_be32-word_at (drop 8 p),
  read_be32-word_at (drop 12 p),
  read_be32-word_at (drop 16 p),
  length-drop 4 p,
  length-drop 8 p,
  length-drop 12 p,
  length-drop 16 p,
)

-- A slot that is not cut is read whole.
pub read_slot :
    (buf : List ℕ) (i : ℕ)
    → slot_cut buf i ≡ false
    → read_raw (slot_at buf i) ≡ ok (raw_at (slot_at buf i))
read_slot buf i h =
    let fits : nfs4_hdr_sz + (i + 1) * nfs4_ace_sz ≤ length buf = ground arith in
    read_raw-raw_at (slot_at buf i) (omega (arith, length-drop (nfs4_hdr_sz + i * nfs4_ace_sz) buf))

pub IsBytes-drop : (n : ℕ) (p : List ℕ) → IsBytes p → IsBytes (drop n p)
IsBytes-drop zero p h = h
IsBytes-drop (suc n) [] h = tt
IsBytes-drop (suc n) (b ∷ p) h = IsBytes-drop n p h.1

pub raw_at-IsRaw : (p : List ℕ) → IsBytes p → IsRaw (raw_at p)
unfolding raw_at
raw_at-IsRaw p h = record {
  type_fits = word_at-lt p h;
  flags_fits = word_at-lt (drop 4 p) (IsBytes-drop 4 p h);
  iflag_fits = word_at-lt (drop 8 p) (IsBytes-drop 8 p h);
  mask_fits = word_at-lt (drop 12 p) (IsBytes-drop 12 p h);
  who_fits = word_at-lt (drop 16 p) (IsBytes-drop 16 p h);
}

-- The whole slots among those of index i on.
unfoldable pub whole_slots : ℕ → ℕ → List ℕ → List RawAce
whole_slots zero i buf = []
whole_slots (suc left) i buf =
    let rest = whole_slots left (i + 1) buf in
    if slot_cut buf i then [] else raw_at (slot_at buf i) ∷ rest

unfoldable pub entries : List ℕ → List RawAce
entries buf = whole_slots (word_at (drop 4 buf)) 0 buf

pub whole_slots-IsRaw :
    (left i : ℕ) (buf : List ℕ) → IsBytes buf → All IsRaw (whole_slots left i buf)
unfolding whole_slots
whole_slots-IsRaw zero i buf h = tt
whole_slots-IsRaw (suc left) i buf h = elim (Bool-cases (slot_cut buf i)) [
  | inl cut ↦ rw cut tt
  | inr whole ↦ rw whole (
    raw_at-IsRaw (slot_at buf i) (IsBytes-drop (nfs4_hdr_sz + i * nfs4_ace_sz) buf h),
    whole_slots-IsRaw left (i + 1) buf h,
  )
]

pub read_naces-word_at :
    (buf : List ℕ) → 8 ≤ length buf → read_naces buf ≡ ok (word_at (drop 4 buf))
read_naces-word_at buf h =
    ap load (read_be32-word_at (drop 4 buf) (omega (arith, length-drop 4 buf)))

pub word_at-be32 : (w : ℕ) (rest : List ℕ) → w < 2 ^ 32 → word_at (be32 w ++ rest) ≡ w
unfolding word_at read_be32 be32
word_at-be32 w rest h = omega arith
