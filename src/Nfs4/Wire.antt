-- ===== src/Nfs4/Wire.antt =====
-- src/cext/os/nfs4acl.c: one entry written and read again, and the slots of many.
use truenas_pyos.Prelude.{
  ℕ, ◌+◌, ◌*◌, ◌^◌, ◌≤◌, ◌<◌, ◌≡◌, refl, ap, sym, ◌∙◌, ◌⊎◌, List, [], ◌∷◌, ◌++◌, drop, length, map,
  All, arith, drop-drop,
}
use mathlib.Core.List.{append_assoc}
use truenas_pyos.Prelude.Int.{ℤ, pos, minus_one, u32_of}
use truenas_pyos.Prelude.Bytes.{be32, read_be32}
use truenas_pyos.Py.{PyValue, py_none, int, object, ok, has_member}
use truenas_pyos.Nfs4.Acl.{checked_ace, decode_aces, encode_aces, slot_at}
use truenas_pyos.Nfs4.Slot.{
  RawAce, nfs4ace_decode, nfs4ace_encode, nfs4ace_write_raw, read_raw, who_words,
}
use truenas_pyos.Nfs4.Types.{
  Nfs4Ace, ace, nfs4_ace_sz, nfs4_ace_words, nfs4_hdr_sz, nfs4_hdr_words, who_named,
}

pub record IsRaw (r : RawAce) : Type 0 where
  pub type_fits : r.type_word < 2 ^ 32
  pub flags_fits : r.flags_word < 2 ^ 32
  pub iflag_fits : r.iflag_word < 2 ^ 32
  pub mask_fits : r.mask_word < 2 ^ 32
  pub who_fits : r.who_word < 2 ^ 32

-- A slot that was written is read back, whatever follows it.
pub read_raw-write :
    (r : RawAce) (rest : List ℕ) → IsRaw r → read_raw (nfs4ace_write_raw r ++ rest) ≡ ok r
unfolding read_raw nfs4ace_write_raw be32 read_be32
read_raw-write r rest h = ground arith

-- The principal of an entry: a number of a user or group, or one of the three special ones.
abbrev pub IsPrincipal : PyValue → PyValue → Type 0
IsPrincipal who_type who_id =
    ((n : ℕ) × (who_type ≡ int (pos who_named)) × (who_id ≡ int (pos n)) × (n < 2 ^ 32))
    ⊎ ((k : ℕ) × (who_type ≡ int (pos k)) × (who_id ≡ int minus_one) × (1 ≤ k) × (k ≤ 3))

-- An entry with a type, a principal and words that the wire format can hold.
pub record IsWire (a : Nfs4Ace) : Type 0 where
  pub t : ℕ
  pub f : ℕ
  pub m : ℕ
  pub type_is : a.ace_type ≡ int (pos t)
  pub flags_is : a.ace_flags ≡ int (pos f)
  pub mask_is : a.access_mask ≡ int (pos m)
  pub type_fits : t ≤ 3
  pub flags_fits : f < 2 ^ 32
  pub mask_fits : m < 2 ^ 32
  pub principal : IsPrincipal a.who_type a.who_id

abbrev pub int_value : PyValue → ℤ
int_value (int z) = z
int_value py_none = pos 0
int_value object = pos 0

-- The words that an entry is written as.
abbrev pub raw_of : Nfs4Ace → RawAce
raw_of a =
    let w = who_words (int_value a.who_type) (int_value a.who_id) in
    record {
      type_word = u32_of (int_value a.ace_type);
      flags_word = u32_of (int_value a.ace_flags);
      iflag_word = w.iflag;
      mask_word = u32_of (int_value a.access_mask);
      who_word = w.who;
    }

IsRaw-raw_of : (a : Nfs4Ace) → IsWire a → IsRaw (raw_of a)
unfolding who_words
IsRaw-raw_of a h = ground arith

encode-raw_of :
    (a : Nfs4Ace) (p endp : ℕ) → IsWire a → p + 5 ≤ endp → nfs4ace_encode a p endp ≡ ok (raw_of a)
unfolding nfs4ace_encode
encode-raw_of a p endp h fits = ground arith

decode-raw_of : (a : Nfs4Ace) → IsWire a → nfs4ace_decode (raw_of a) ≡ ok a
unfolding nfs4ace_decode who_words has_member
decode-raw_of a h = ground arith

-- What follows the header in a buffer that holds these entries.
abbrev pub slots_of : List Nfs4Ace → List ℕ
slots_of [] = []
slots_of (a ∷ as') = nfs4ace_write_raw (raw_of a) ++ slots_of as'

pub encode_aces-slots_of :
    (endp i : ℕ) (xs : List Nfs4Ace)
    → All IsWire xs
    → nfs4_hdr_words + (i + length xs) * nfs4_ace_words ≤ endp
    → encode_aces endp i (map ace xs) ≡ ok (slots_of xs)
unfolding encode_aces checked_ace
encode_aces-slots_of endp i [] h fits = refl
encode_aces-slots_of endp i (a ∷ xs) h fits = rw (
  encode-raw_of a (nfs4_hdr_words + i * nfs4_ace_words) endp h.0 (omega arith),
  encode_aces-slots_of endp (i + 1) xs h.1 (omega arith),
)

pub slot_at-suc : (buf : List ℕ) (i : ℕ) → slot_at buf (i + 1) ≡ drop 20 (slot_at buf i)
slot_at-suc buf i =
    ap (λ k. drop k buf) (omega arith) ∙ sym (drop-drop (nfs4_hdr_sz + i * nfs4_ace_sz) 20 buf)

drop-write : (r : RawAce) (rest : List ℕ) → drop 20 (nfs4ace_write_raw r ++ rest) ≡ rest
unfolding nfs4ace_write_raw be32
drop-write r rest = refl

pub decode_aces-slots_of :
    (i : ℕ) (buf rest : List ℕ) (xs : List Nfs4Ace)
    → All IsWire xs
    → slot_at buf i ≡ slots_of xs ++ rest
    → decode_aces (length xs) i buf ≡ ok xs
unfolding decode_aces
decode_aces-slots_of i buf rest [] h e = refl
decode_aces-slots_of i buf rest (a ∷ xs) h e =
    let front : slot_at buf i ≡ nfs4ace_write_raw (raw_of a) ++ (slots_of xs ++ rest) =
      e ∙ append_assoc (nfs4ace_write_raw (raw_of a)) (slots_of xs) rest in
    let next : slot_at buf (i + 1) ≡ slots_of xs ++ rest =
      slot_at-suc buf i ∙ ap (drop 20) front ∙ drop-write (raw_of a) (slots_of xs ++ rest) in
    rw (
      front,
      read_raw-write (raw_of a) (slots_of xs ++ rest) (IsRaw-raw_of a h.0),
      decode-raw_of a h.0,
      decode_aces-slots_of (i + 1) buf rest xs h.1 next,
    )

pub length-slots_of : (xs : List Nfs4Ace) → length (slots_of xs) ≡ length xs * 20
unfolding nfs4ace_write_raw be32
length-slots_of [] = refl
length-slots_of (a ∷ xs) = omega (arith, length-slots_of xs)
