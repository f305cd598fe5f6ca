-- ===== src/Posix/RoundTrip.antt =====
-- Entries that the POSIX xattr format can hold, and their way through `from_aces` and the readers.
use truenas_pyos.Prelude.{
  ℕ, ◌+◌, ◌-◌, ◌*◌, ◌/◌, ◌^◌, ◌<◌, ◌≡◌, ◌⊎◌, refl, ap, sym, ◌∙◌, Bool, false, List, [], ◌∷◌, ◌++◌,
  drop, length, map, All, ltb, ◌==◌, arith, drop-drop, inl, inr,
}
use mathlib.Core.Path.{subst}
use truenas_pyos.Prelude.Int.{ℤ, pos, negsuc, minus_one}
use truenas_pyos.Prelude.Bytes.{le16, le32}
use truenas_pyos.Py.{int, ok, as_long}
use truenas_pyos.Posix.Types.{
  posix_hdr_sz, posix_ace_sz, posix_acl_version, PosixAce, Item, before, posix_ace_lt, ace, other,
}
use truenas_pyos.Posix.Acl.{
  checked_ace, encode_loop, encode_posix_aces, parse_posix_ace, entry_at, parse_loop,
  parse_posix_aces,
}
use truenas_pyos.Posix.EntryTrip.{IsStorable, int_value, bytes_of, encode-bytes_of, parse-bytes_of}

-- The entries one after another, as bytes.
abbrev pub body_of : List PosixAce → List ℕ
body_of [] = []
body_of (a ∷ as') = bytes_of a ++ body_of as'

abbrev pub blob_of : List PosixAce → List ℕ
blob_of xs = le32 posix_acl_version ++ body_of xs

pub encode_posix_aces-blob_of :
    (xs : List PosixAce) → All IsStorable xs → encode_posix_aces (map ace xs) ≡ ok (blob_of xs)
unfolding encode_posix_aces
encode_posix_aces-blob_of xs h = rw (loop xs h)
  where
    loop : (ys : List PosixAce) → All IsStorable ys → encode_loop (map ace ys) ≡ ok (body_of ys)
    loop [] k = unfold encode_loop in refl
    loop (a ∷ ys) k = unfold encode_loop checked_ace in rw (encode-bytes_of a k.0, loop ys k.1)

entry_at-suc : (buf : List ℕ) (i : ℕ) → entry_at buf (i + 1) ≡ drop 8 (entry_at buf i)
entry_at-suc buf i =
    ap (λ k. drop k buf) (omega arith) ∙ sym (drop-drop (posix_hdr_sz + i * posix_ace_sz) 8 buf)

drop-bytes_of : (a : PosixAce) (rest : List ℕ) → drop 8 (bytes_of a ++ rest) ≡ rest
unfolding le16 le32
drop-bytes_of a rest = refl

parse_loop-body_of :
    (i : ℕ) (buf : List ℕ) (xs : List PosixAce) (is_default : Bool)
    → All IsStorable xs
    → All (λ a. a.default_ ≡ is_default) xs
    → entry_at buf i ≡ body_of xs
    → parse_loop (length xs) i buf is_default ≡ ok xs
unfolding parse_loop
parse_loop-body_of i buf [] is_default h d e = refl
parse_loop-body_of i buf (a ∷ xs) is_default h d e =
    let next : entry_at buf (i + 1) ≡ body_of xs =
      entry_at-suc buf i ∙ ap (drop 8) e ∙ drop-bytes_of a (body_of xs) in
    let here : parse_posix_ace (bytes_of a ++ body_of xs) is_default ≡ ok a =
      subst (λ b. parse_posix_ace (bytes_of a ++ body_of xs) b ≡ ok a) d.0
        (parse-bytes_of a (body_of xs) h.0) in
    rw (e, here, parse_loop-body_of (i + 1) buf xs is_default h.1 d.1 next)

length-body_of : (xs : List PosixAce) → length (body_of xs) ≡ length xs * 8
unfolding le16 le32
length-body_of [] = refl
length-body_of (a ∷ xs) = omega (arith, length-body_of xs)

length-blob_of : (xs : List PosixAce) → length (blob_of xs) ≡ 4 + length xs * 8
unfolding le32
length-blob_of xs = omega (arith, length-body_of xs)

entry_at-blob_of : (xs : List PosixAce) → entry_at (blob_of xs) 0 ≡ body_of xs
unfolding le32
entry_at-blob_of xs = refl

pub parse_posix_aces-blob_of :
    (xs : List PosixAce) (is_default : Bool)
    → All IsStorable xs
    → All (λ a. a.default_ ≡ is_default) xs
    → parse_posix_aces (blob_of xs) is_default ≡ ok xs
unfolding parse_posix_aces
parse_posix_aces-blob_of xs is_default h d =
    let count : (4 + length xs * 8 - posix_hdr_sz) / posix_ace_sz ≡ length xs = omega arith in
    let full : (4 + length xs * 8 == 0) ≡ false = ground arith in
    let long : ltb (4 + length xs * 8) posix_hdr_sz ≡ false = ground arith in
    rw (
      length-blob_of xs,
      count,
      full,
      long,
      parse_loop-body_of 0 (blob_of xs) xs is_default h d (entry_at-blob_of xs),
    )

-- The canonical order as a number: the tag first, then the id, -1 before all others.
abbrev pub id_rank : ℤ → ℕ
id_rank (pos n) = n + 1
id_rank (negsuc n) = 0

abbrev pub tag_rank : ℤ → ℕ
tag_rank (pos n) = n
tag_rank (negsuc n) = 0

abbrev pub item_key : Item → ℕ
item_key (ace a) = tag_rank (int_value a.tag) * 2 ^ 33 + id_rank (int_value a.id)
item_key other = 0

abbrev pub IsStorableItem : Item → Type 0
IsStorableItem (ace a) = IsStorable a
IsStorableItem other = ⊥

-- What a storable entry's tag and id are.
abbrev Ranked : PosixAce → Type 0
Ranked a =
    (k : ℕ) × (z : ℤ) × (a.tag ≡ int (pos k))
    × (a.id ≡ int z)
    × (k < 2 ^ 16)
    × ((z ≡ minus_one) ⊎ ((n : ℕ) × (z ≡ pos n) × (n < 2 ^ 32)))

ranked : (a : PosixAce) → IsStorable a → Ranked a
ranked a h = elim h.tagged [
  | inl (k, t, i, w) ↦ (k, minus_one, t, i, omega arith, inl refl)
  | inr (k, n, t, i, w, lt) ↦ (k, pos n, t, i, omega arith, inr (n, refl, omega arith))
]

before_ranks :
    (j k : ℕ) (y z : ℤ)
    → ((y ≡ minus_one) ⊎ ((n : ℕ) × (y ≡ pos n) × (n < 2 ^ 32)))
    → ((z ≡ minus_one) ⊎ ((n : ℕ) × (z ≡ pos n) × (n < 2 ^ 32)))
    → before (pos j) y (pos k) z ≡ ltb (j * 2 ^ 33 + id_rank y) (k * 2 ^ 33 + id_rank z)
unfolding before
before_ranks j k y z h g = ground arith

pub lt-item_key :
    (x y : Item)
    → IsStorableItem x
    → IsStorableItem y
    → posix_ace_lt x y ≡ ok (ltb (item_key x) (item_key y))
unfolding posix_ace_lt as_long
lt-item_key (ace a) (ace b) h g =
    let (j, y, ta, ia, _, ra) = ranked a h in
    let (k, z, tb, ib, _, rb) = ranked b g in ground (arith, before_ranks j k y z ra rb)
lt-item_key (ace a) other h g = absurd g
lt-item_key other y h g = absurd h
