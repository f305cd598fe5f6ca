-- ===== src/Xattr/Synthesized.antt =====
-- src/cext/os/acl.c: the access ACL that do_fgetacl makes from the mode bits of a file.
use truenas_pyos.Prelude.{
  ℕ, ◌/◌, ◌^◌, ◌%◌, ◌≡◌, ◌⊎◌, inl, inr, refl, false, none, List, [], ◌∷◌, bit_and, arith,
}
use truenas_pyos.Prelude.Int.{ℤ, pos, minus_one}
use truenas_pyos.Prelude.Bits.{bit_and_seven-le}
use truenas_pyos.Prelude.Bytes.{le16, le32, read_le16, read_le32}
use truenas_pyos.Py.{ok, int}
use truenas_pyos.Nfs4.Valid.{Stat}
use truenas_pyos.Posix.Types.{PosixAce, is_special_tag}
use truenas_pyos.Posix.FromAces.{get_aces-blob}
use truenas_pyos.Posix.EntryTrip.{IsStorable}
use truenas_pyos.Posix.RoundTrip.{blob_of}
use truenas_pyos.Posix.Acl.{posix_acl_init, get_aces}
use truenas_pyos.Posix.Valid.{
  count_tag, count_loop, check_counts, validate_posix_blob, posixacl_valid,
}
use truenas_pyos.Xattr.Calls.{synthesize_posix_access_from_mode}

-- The entries that mode bits stand for.
abbrev pub mode_ace : ℕ → ℕ → PosixAce
mode_ace tag perm = record {
  tag = int (pos tag);
  perms = int (pos perm);
  id = int minus_one;
  default_ = false;
}

abbrev pub mode_aces : ℕ → List PosixAce
mode_aces mode =
    mode_ace 0x01 (bit_and (mode / 2 ^ 6) 7)
    ∷ mode_ace 0x04 (bit_and (mode / 2 ^ 3) 7)
    ∷ mode_ace 0x20 (bit_and mode 7)
    ∷ []

permission_bits-le : (x : ℕ) → bit_and x 7 % 2 ^ 16 ≡ bit_and x 7
permission_bits-le x = omega (arith, bit_and_seven-le x)

blob_of-mode_aces : (mode : ℕ) → synthesize_posix_access_from_mode mode ≡ blob_of (mode_aces mode)
unfolding synthesize_posix_access_from_mode is_special_tag le16 le32
blob_of-mode_aces mode =
    rw
      (
        permission_bits-le (mode / 2 ^ 6),
        permission_bits-le (mode / 2 ^ 3),
        permission_bits-le mode,
      )
      refl

mode_ace-IsStorable :
    (tag x : ℕ)
    → ((tag ≡ 0x01) ⊎ (tag ≡ 0x04) ⊎ (tag ≡ 0x10) ⊎ (tag ≡ 0x20))
    → IsStorable (mode_ace tag (bit_and x 7))
mode_ace-IsStorable tag x special = record {
  m = bit_and x 7;
  perms_is = refl;
  perms_fit = omega (arith, bit_and_seven-le x);
  tagged = inl (tag, refl, refl, special);
}

valid_synthesized :
    (fstat : ℤ → Stat) (fd : ℤ) (mode : ℕ)
    → posixacl_valid fstat fd (synthesize_posix_access_from_mode mode) none ≡ ok tt
unfolding posixacl_valid validate_posix_blob synthesize_posix_access_from_mode count_loop count_tag
    check_counts le16 le32 read_le16 read_le32
valid_synthesized fstat fd mode = refl

-- The ACL that is synthesized from mode bits reads as three entries, for the owner, the group and the
-- others, each with its three bits of the mode, and it passes the check on ACLs that are set.
pub synthesize_posix_access_from_mode-get_aces :
    (fstat : ℤ → Stat) (fd : ℤ) (mode : ℕ)
    → (get_aces (posix_acl_init (synthesize_posix_access_from_mode mode) none)
        ≡ ok (mode_aces mode))
      × (posixacl_valid fstat fd (synthesize_posix_access_from_mode mode) none ≡ ok tt)
synthesize_posix_access_from_mode-get_aces fstat fd mode = (
  rw (blob_of-mode_aces mode) (
      get_aces-blob none (mode_aces mode)
        (
          mode_ace-IsStorable 0x01 (mode / 2 ^ 6) (inl refl),
          (
            mode_ace-IsStorable 0x04 (mode / 2 ^ 3) (inr (inl refl)),
            (mode_ace-IsStorable 0x20 mode (inr (inr (inr refl))), tt),
          ),
        )
        (refl, (refl, (refl, tt)))),
  valid_synthesized fstat fd mode,
)
