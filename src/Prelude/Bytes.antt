-- ===== src/Prelude/Bytes.antt =====
-- Fixed-width words as bytes. The program stores NFSv4 ACLs big-endian (`htobe32`, `be32toh`) and
-- POSIX ACLs little-endian (`htole16`, `htole32`). A read past the end of a buffer is `none`.
use truenas_pyos.Prelude.{
  ℕ, ◌+◌, ◌*◌, ◌/◌, ◌%◌, ◌^◌, ◌<◌, ◌≡◌, refl, ap, List, [], ◌∷◌, ◌++◌, Option, none, some, arith,
  length, All, ◌==◌, if◌then◌else◌,
}

abbrev pub IsBytes : List ℕ → Type 0
IsBytes = All (λ b. b < 256)

unfoldable pub be32 : ℕ → List ℕ
be32 w = (w / 2 ^ 24 % 256) ∷ (w / 2 ^ 16 % 256) ∷ (w / 2 ^ 8 % 256) ∷ (w % 256) ∷ []

unfoldable pub read_be32 : List ℕ → Option ℕ
read_be32 (a ∷ b ∷ c ∷ d ∷ rest) = some (a * 2 ^ 24 + b * 2 ^ 16 + c * 2 ^ 8 + d)
read_be32 _ = none

unfoldable pub le32 : ℕ → List ℕ
le32 w = (w % 256) ∷ (w / 2 ^ 8 % 256) ∷ (w / 2 ^ 16 % 256) ∷ (w / 2 ^ 24 % 256) ∷ []

unfoldable pub read_le32 : List ℕ → Option ℕ
read_le32 (a ∷ b ∷ c ∷ d ∷ rest) = some (a + b * 2 ^ 8 + c * 2 ^ 16 + d * 2 ^ 24)
read_le32 _ = none

unfoldable pub le16 : ℕ → List ℕ
le16 w = (w % 256) ∷ (w / 2 ^ 8 % 256) ∷ []

unfoldable pub read_le16 : List ℕ → Option ℕ
read_le16 (a ∷ b ∷ rest) = some (a + b * 2 ^ 8)
read_le16 _ = none

pub read_be32-be32 : (w : ℕ) (rest : List ℕ) → w < 2 ^ 32 → read_be32 (be32 w ++ rest) ≡ some w
unfolding read_be32 be32
read_be32-be32 w rest h = ap some (omega arith)

pub read_le32-le32 : (w : ℕ) (rest : List ℕ) → w < 2 ^ 32 → read_le32 (le32 w ++ rest) ≡ some w
unfolding read_le32 le32
read_le32-le32 w rest h = ap some (omega arith)

pub read_le16-le16 : (w : ℕ) (rest : List ℕ) → w < 2 ^ 16 → read_le16 (le16 w ++ rest) ≡ some w
unfolding read_le16 le16
read_le16-le16 w rest h = ap some (omega arith)

pub length-be32 : (w : ℕ) → length (be32 w) ≡ 4
unfolding be32
length-be32 w = refl

pub IsBytes-be32 : (w : ℕ) → IsBytes (be32 w)
unfolding be32
IsBytes-be32 w = omega arith

-- A C string argument: the bytes up to the first NUL.
unfoldable pub c_string : List ℕ → List ℕ
c_string [] = []
c_string (b ∷ rest) = if b == 0 then [] else b ∷ c_string rest
