-- ===== src/Nfs4/ValidLoop.antt =====
-- src/cext/os/nfs4acl.c: the loop of nfs4acl_valid over the slots as a check of the list of entries.
use truenas_pyos.Prelude.{
  ℕ, zero, suc, ◌+◌, ◌≤◌, ◌≡◌, ◌⊎◌, refl, ap, Bool, false, ◌||◌, List, [], ◌∷◌, drop, length,
  Bool-cases, inl, inr, ltb_of_le,
}
use truenas_pyos.Prelude.Int.{ℤ}
use truenas_pyos.Py.{Result, ok, ◌>>=◌, ◌>>◌}
use truenas_pyos.Nfs4.Acl.{slot_at}
use truenas_pyos.Nfs4.Entries.{entries, raw_at, read_naces-word_at, read_slot, whole_slots, word_at}
use truenas_pyos.Nfs4.Inherit.{slot_cut}
use truenas_pyos.Nfs4.Slot.{RawAce}
use truenas_pyos.Nfs4.Valid.{
  Seen, Stat, check_ace, check_seen, nfs4acl_valid, note_ace, target_is_dir, valid_loop,
}

-- The checks of all entries in turn, and what they note.
unfoldable pub check_all : Bool → List RawAce → Seen → Result Seen
check_all is_dir [] seen = ok seen
check_all is_dir (r ∷ rs) seen = check_ace is_dir r >> check_all is_dir rs (note_ace r seen)

valid_loop-check_all :
    (left i : ℕ) (buf : List ℕ) (is_dir : Bool) (seen : Seen)
    → valid_loop left i buf is_dir seen ≡ check_all is_dir (whole_slots left i buf) seen
unfolding valid_loop check_all whole_slots
valid_loop-check_all zero i buf is_dir seen = refl
valid_loop-check_all (suc left) i buf is_dir seen = elim (Bool-cases (slot_cut buf i)) [
  | inl cut ↦ rw cut
  | inr whole ↦
      rw (whole, read_slot buf i whole)
        (ap (λ k. check_ace is_dir (raw_at (slot_at buf i)) >> k)
          (valid_loop-check_all left (i + 1) buf is_dir (note_ace (raw_at (slot_at buf i)) seen)))
]

abbrev pub nothing_seen : Seen
nothing_seen = record { has_propagate = false; has_inheritable = false }

-- Some entry passes a test, or has a property.
abbrev pub any : (RawAce → Bool) → List RawAce → Bool
any p [] = false
any p (x ∷ xs) = p x || any p xs

abbrev pub Any : (RawAce → Type 0) → List RawAce → Type 0
Any P [] = ⊥
Any P (x ∷ xs) = P x ⊎ Any P xs

-- The check of a target whose kind is known.
abbrev pub check_entries : Bool → List RawAce → Result (Unit {0})
check_entries is_dir rs = check_all is_dir rs nothing_seen >>= check_seen is_dir

pub nfs4acl_valid-check_entries :
    (fstat : ℤ → Stat) (fd : ℤ) (buf : List ℕ) {is_dir : Bool}
    → target_is_dir fstat fd ≡ ok is_dir
    → 8 ≤ length buf
    → nfs4acl_valid fstat fd buf ≡ check_entries is_dir (entries buf)
unfolding nfs4acl_valid entries
nfs4acl_valid-check_entries fstat fd buf {is_dir} target size = rw (
  ltb_of_le (length buf) 8 size,
  target,
  read_naces-word_at buf size,
  valid_loop-check_all (word_at (drop 4 buf)) 0 buf is_dir nothing_seen,
)
