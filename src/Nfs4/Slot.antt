-- ===== src/Nfs4/Slot.antt =====
-- src/cext/os/nfs4acl.c: the 20-byte XDR slot of an ACE, nfs4ace_encode and nfs4ace_decode.
use truenas_pyos.Prelude.{ℕ, ◌-◌, List, ◌++◌, drop, ltb, ◌==◌, if◌then◌else◌}
use truenas_pyos.Prelude.Int.{ℤ, pos, minus_one, u32_of, eqb_ℤ}
use truenas_pyos.Prelude.Bytes.{be32, read_be32}
use truenas_pyos.Py.{
  int, Result, ok, runtime_error, as_long, int_enum_call, int_flag_call, load, raise_if, ◌>>=◌,
  ◌>>◌,
}
use truenas_pyos.Nfs4.Types.{
  Nfs4Ace, nfs4_ace_type_table, nfs4_ace_words, nfs4_who_table, who_named,
}

-- The five words of an ACE slot.
pub record RawAce : Type 0 where
  pub type_word : ℕ
  pub flags_word : ℕ
  pub iflag_word : ℕ
  pub mask_word : ℕ
  pub who_word : ℕ

-- nfs4ace_write_raw
unfoldable pub nfs4ace_write_raw : RawAce → List ℕ
nfs4ace_write_raw r =
    be32 r.type_word
    ++ be32 r.flags_word
    ++ be32 r.iflag_word
    ++ be32 r.mask_word
    ++ be32 r.who_word

-- The words p[0] to p[4] of the slot at `p`, by `be32toh`.
unfoldable pub read_raw : List ℕ → Result RawAce
read_raw p = do
  type_word ← load (read_be32 p)
  flags_word ← load (read_be32 (drop 4 p))
  iflag_word ← load (read_be32 (drop 8 p))
  mask_word ← load (read_be32 (drop 12 p))
  who_word ← load (read_be32 (drop 16 p))
  ok (record {
    type_word = type_word;
    flags_word = flags_word;
    iflag_word = iflag_word;
    mask_word = mask_word;
    who_word = who_word;
  })

-- The iflag and who words of nfs4ace_encode.
unfoldable pub who_words : ℤ → ℤ → record { iflag : ℕ; who : ℕ }
who_words who_type who_id =
    if eqb_ℤ who_type (pos who_named)
    then record { iflag = 0; who = u32_of who_id }
    else record { iflag = 1; who = u32_of who_type }

-- nfs4ace_encode at the word offsets `p` and `endp` of the buffer. The conversions are bound from
-- the last to the first, as in `nfs4_ace_lt`.
unfoldable pub nfs4ace_encode : Nfs4Ace → ℕ → ℕ → Result RawAce
unfolding as_long who_words
nfs4ace_encode a p endp = do
  raise_if (ltb (endp - p) nfs4_ace_words) runtime_error
  who_id ← as_long a.who_id
  who_type ← as_long a.who_type
  access_mask ← as_long a.access_mask
  ace_flags ← as_long a.ace_flags
  ace_type ← as_long a.ace_type
  let w = who_words who_type who_id
  ok (record {
    type_word = u32_of ace_type;
    flags_word = u32_of ace_flags;
    iflag_word = w.iflag;
    mask_word = u32_of access_mask;
    who_word = w.who;
  })

-- nfs4ace_decode. All four enum classes are called before the results are tested, and the
-- exception of the last call that fails stays set: they are bound from the last to the first. A call
-- that is made while an exception is set is taken to answer as without it.
unfoldable pub nfs4ace_decode : RawAce → Result Nfs4Ace
unfolding int_enum_call int_flag_call
nfs4ace_decode r = do
  let who_type_v = if r.iflag_word == 0 then who_named else r.who_word
  let who_id_v = if r.iflag_word == 0 then pos r.who_word else minus_one
  who_type ← int_enum_call "NFS4Who" nfs4_who_table who_type_v
  access_mask ← int_flag_call r.mask_word
  ace_flags ← int_flag_call r.flags_word
  ace_type ← int_enum_call "NFS4AceType" nfs4_ace_type_table r.type_word
  ok (record {
    ace_type = ace_type;
    ace_flags = ace_flags;
    access_mask = access_mask;
    who_type = who_type;
    who_id = int who_id_v;
  })
