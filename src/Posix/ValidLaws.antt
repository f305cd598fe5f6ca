-- ===== src/Posix/ValidLaws.antt =====
-- What `validate_posix_blob` accepts, said of the list of the blob's entries.
use truenas_pyos.Prelude.{
  ℕ, zero, suc, ◌+◌, ◌-◌, ◌*◌, ◌/◌, ◌≤◌, ◌<◌, ◌≡◌, ◌≢◌, ◌↔◌, ◌⊎◌, refl, ap, not, none, some, List,
  [], ◌∷◌, String, drop, length, All, ◌==◌, arith, if◌then◌else◌, inl, inr, length-drop, ltb_of_le,
}
use mathlib.Core.Path.{fun_ext}
use truenas_pyos.Prelude.Bytes.{read_le16, read_le32}
use truenas_pyos.Py.{
  Result, ok, raise, value_error, blob_too_short, bad_version, raise_if, ◌>>=◌, ◌>>◌, >>=-eq-ok,
}
use truenas_pyos.Posix.Types.{posix_hdr_sz, posix_ace_sz, posix_acl_version}
use truenas_pyos.Posix.Acl.{entry_at}
use truenas_pyos.Posix.Valid.{
  Counts, count_tag, count_loop, check_counts, no_counts, validate_posix_blob,
}

-- The tag and the id of an entry in a blob.
pub record Entry : Type 0 where
  pub tag : ℕ
  pub xid : ℕ

unfoldable pub le16_at : List ℕ → ℕ
le16_at p = elim (read_le16 p) [ none ↦ 0 | some w ↦ w ]

unfoldable pub le32_at : List ℕ → ℕ
le32_at p = elim (read_le32 p) [ none ↦ 0 | some w ↦ w ]

read_le16-le16_at : (p : List ℕ) → 2 ≤ length p → read_le16 p ≡ some (le16_at p)
unfolding le16_at read_le16
read_le16-le16_at [] h = absurd (omega arith)
read_le16-le16_at (a ∷ []) h = absurd (omega arith)
read_le16-le16_at (a ∷ b ∷ rest) h = refl

read_le32-le32_at : (p : List ℕ) → 4 ≤ length p → read_le32 p ≡ some (le32_at p)
unfolding le32_at read_le32
read_le32-le32_at [] h = absurd (omega arith)
read_le32-le32_at (a ∷ []) h = absurd (omega arith)
read_le32-le32_at (a ∷ b ∷ []) h = absurd (omega arith)
read_le32-le32_at (a ∷ b ∷ c ∷ []) h = absurd (omega arith)
read_le32-le32_at (a ∷ b ∷ c ∷ d ∷ rest) h = refl

-- The entries from index i on, and all of a blob: as many as fit whole behind the header.
unfoldable pub entries_from : ℕ → ℕ → List ℕ → List Entry
entries_from zero i buf = []
entries_from (suc left) i buf =
    record { tag = le16_at (entry_at buf i); xid = le32_at (drop 4 (entry_at buf i)) }
    ∷ entries_from left (i + 1) buf

unfoldable pub entries : List ℕ → List Entry
entries buf = entries_from ((length buf - posix_hdr_sz) / posix_ace_sz) 0 buf

abbrev pub count_all : String → List Entry → Counts → Result Counts
count_all label [] c = ok c
count_all label (e ∷ es) c = count_tag label e.tag e.xid c >>= λ c'. count_all label es c'

count_loop-count_all :
    (label : String) (left i : ℕ) (buf : List ℕ) (c : Counts)
    → 4 + (i + left) * 8 ≤ length buf
    → count_loop label left i buf c ≡ count_all label (entries_from left i buf) c
unfolding count_loop entries_from
count_loop-count_all label zero i buf c h = refl
count_loop-count_all label (suc left) i buf c h =
    let p = entry_at buf i in
    let size : 8 ≤ length p = omega (arith, length-drop (posix_hdr_sz + i * posix_ace_sz) buf) in
    rw
      (
        read_le16-le16_at p (omega arith),
        read_le32-le32_at (drop 4 p) (omega (arith, length-drop 4 p)),
      )
      (ap (λ k. count_tag label (le16_at p) (le32_at (drop 4 p)) c >>= k)
        (fun_ext λ c'. count_loop-count_all label left (i + 1) buf c' (omega arith)))

-- How many entries have the tag.
abbrev pub count : ℕ → List Entry → ℕ
count tag [] = 0
count tag (e ∷ es) = (if e.tag == tag then 1 else 0) + count tag es

-- An entry that the `switch` lets pass: a known tag, and a number where the tag names someone.
abbrev pub IsKnown : Entry → Type 0
IsKnown e =
    ((e.tag ≡ 0x01) ⊎ (e.tag ≡ 0x04) ⊎ (e.tag ≡ 0x10) ⊎ (e.tag ≡ 0x20))
    ⊎ (((e.tag ≡ 0x02) ⊎ (e.tag ≡ 0x08)) × (e.xid ≢ 0xffff_ffff))

abbrev bump : Entry → Counts → Counts
bump e c = record {
  n_user_obj = c.n_user_obj + (if e.tag == 0x01 then 1 else 0);
  n_group_obj = c.n_group_obj + (if e.tag == 0x04 then 1 else 0);
  n_other = c.n_other + (if e.tag == 0x20 then 1 else 0);
  n_mask = c.n_mask + (if e.tag == 0x10 then 1 else 0);
  n_named = c.n_named + (if e.tag == 0x02 then 1 else 0) + (if e.tag == 0x08 then 1 else 0);
}

count_tag-known :
    (label : String) (e : Entry) (c : Counts)
    → IsKnown e
    → count_tag label e.tag e.xid c ≡ ok (bump e c)
unfolding count_tag
count_tag-known label e c (inl h) = ground arith
count_tag-known label e c (inr (h, named)) = ground arith

IsKnown-count_tag :
    (label : String) (e : Entry) (c : Counts) {d : Counts}
    → count_tag label e.tag e.xid c ≡ ok d
    → IsKnown e
unfolding count_tag
IsKnown-count_tag label e c {d} h = ground arith

count_all_sound :
    (label : String) (es : List Entry) (c : Counts) {d : Counts}
    → count_all label es c ≡ ok d
    → All IsKnown es
count_all_sound label [] c h = tt
count_all_sound label (e ∷ es) c {d} h =
    let (c', passed, rest) = >>=-eq-ok (count_tag label e.tag e.xid c) (count_all label es) h in
    (IsKnown-count_tag label e c passed, count_all_sound label es c' rest)

-- The counters behind the loop, from the tags of the entries.
abbrev tally : List Entry → Counts → Counts
tally es c = record {
  n_user_obj = c.n_user_obj + count 0x01 es;
  n_group_obj = c.n_group_obj + count 0x04 es;
  n_other = c.n_other + count 0x20 es;
  n_mask = c.n_mask + count 0x10 es;
  n_named = c.n_named + count 0x02 es + count 0x08 es;
}

count_all_complete :
    (label : String) (es : List Entry) (c : Counts)
    → All IsKnown es
    → count_all label es c ≡ ok (tally es c)
count_all_complete label [] c h = ground arith
count_all_complete label (e ∷ es) c h =
    rw (count_tag-known label e c h.0, count_all_complete label es (bump e c) h.1) (ground arith)

-- One entry for the owner, one for the owning group and one for the others, at most one mask, and a
-- mask wherever an entry names someone.
abbrev pub IsWellFormed : List Entry → Type 0
IsWellFormed es =
    All IsKnown es
    × (count 0x01 es ≡ 1)
    × (count 0x04 es ≡ 1)
    × (count 0x20 es ≡ 1)
    × (count 0x10 es ≤ 1)
    × (((count 0x02 es ≡ 0) × (count 0x08 es ≡ 0)) ⊎ (count 0x10 es ≡ 1))

check_counts-tally :
    (label : String) (es : List Entry)
    → (check_counts label (tally es no_counts) ≡ ok tt) ↔ (
        (count 0x01 es ≡ 1)
        × (count 0x04 es ≡ 1)
        × (count 0x20 es ≡ 1)
        × (count 0x10 es ≤ 1)
        × (((count 0x02 es ≡ 0) × (count 0x08 es ≡ 0)) ⊎ (count 0x10 es ≡ 1)))
unfolding check_counts
check_counts-tally label es = (λ h. ground arith, λ h. ground arith)

fits-entries : (len : ℕ) → 4 ≤ len → 4 + (0 + (len - 4) / 8) * 8 ≤ len
fits-entries len h = omega arith

pub validate_posix_blob-entries :
    (buf : List ℕ) (label : String)
    → 4 ≤ length buf
    → validate_posix_blob buf label ≡ (
        raise_if
          (not (le32_at buf == posix_acl_version))
          (value_error (bad_version label (le32_at buf)))
        >> (count_all label (entries buf) no_counts >>= check_counts label))
unfolding validate_posix_blob entries
validate_posix_blob-entries buf label size =
    rw
      (
        ltb_of_le (length buf) 4 size,
        read_le32-le32_at buf size,
        count_loop-count_all label ((length buf - posix_hdr_sz) / posix_ace_sz) 0 buf no_counts
            (fits-entries (length buf) size),
      )
      refl

-- `validate_posix_blob` accepts a blob of at least 4 bytes exactly when its version is 2 and its
-- entries are well formed: known tags, a number in every entry that names someone, one USER_OBJ, one
-- GROUP_OBJ and one OTHER, at most one MASK, and a MASK wherever there is a named entry.
pub validate_posix_blob_iff :
    (buf : List ℕ) (label : String)
    → 4 ≤ length buf
    → (validate_posix_blob buf label ≡ ok tt) ↔ ((le32_at buf ≡ 2) × IsWellFormed (entries buf))
validate_posix_blob_iff buf label size = (
  λ h.
      let run = rw (validate_posix_blob-entries buf label size) at h in
      let version : le32_at buf ≡ 2 = ground arith in
      let (c, passed, rest) =
        >>=-eq-ok (count_all label (entries buf) no_counts) (check_counts label)
          (rw version at run) in
      let known = count_all_sound label (entries buf) no_counts passed in
      let (users, groups, others, masks, named) =
        (check_counts-tally label (entries buf)).0
          (rw (version, count_all_complete label (entries buf) no_counts known) at run) in
      (version, (known, users, groups, others, masks, named)),
  λ h.
      let (version, (known, users, groups, others, masks, named)) = h in
      rw
        (
          validate_posix_blob-entries buf label size,
          version,
          count_all_complete label (entries buf) no_counts known,
        )
        ((check_counts-tally label (entries buf)).1 (users, groups, others, masks, named)),
)

pub validate_posix_blob_short :
    (buf : List ℕ) (label : String)
    → length buf < 4
    → validate_posix_blob buf label ≡ raise (value_error (blob_too_short label))
unfolding validate_posix_blob
validate_posix_blob_short buf label h = ground arith
