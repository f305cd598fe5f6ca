-- ===== src/Access/Pipe.antt =====
-- src/cext/os/acl_check.c: the records on the result pipe, `write_all` and `drain_pipe`. What a call
-- of write(2) or read(2) transfers is the kernel's choice: a script lists it for the first calls, and
-- each call after those transfers all it can.
use truenas_pyos.Prelude.{
  ℕ, zero, suc, ◌+◌, ◌-◌, min, Option, none, some, List, [], ◌∷◌, ◌++◌, take, drop, length, ◌==◌,
  if◌then◌else◌,
}
use truenas_pyos.Prelude.Bytes.{le32, read_le32}

-- struct failure_rec
pub record FailureRec : Type 0 where
  pub cred_idx : ℕ
  pub comp_idx : ℕ
  pub err : ℕ

-- sizeof(struct failure_rec), and its bytes in memory, least significant first.
abbrev pub rec_sz : ℕ
rec_sz = 12

unfoldable pub rec_bytes : FailureRec → List ℕ
rec_bytes r = le32 r.cred_idx ++ (le32 r.comp_idx ++ le32 r.err)

abbrev word_or_zero : List ℕ → ℕ
word_or_zero p = elim (read_le32 p) [ none ↦ 0 | some w ↦ w ]

unfoldable pub rec_of_bytes : List ℕ → FailureRec
unfolding read_le32
rec_of_bytes p = record {
  cred_idx = word_or_zero p;
  comp_idx = word_or_zero (drop 4 p);
  err = word_or_zero (drop 8 p);
}

-- One call on the pipe: it moves at most so many bytes, is interrupted, or fails.
pub data Transfer : Type 0 where
  moves : ℕ → Transfer
  interrupted : Transfer
  fails : ℕ → Transfer

-- The writing end: the calls still scripted, and the bytes written so far.
pub record Writer : Type 0 where
  pub script : List Transfer
  pub out : List ℕ

-- write_all: `none` for 0, or the errno of -1.
unfoldable pub write_all : List Transfer → List ℕ → List ℕ → Writer × Option ℕ
write_all script out [] = (record { script = script; out = out }, none)
write_all [] out (b ∷ buf) = (record { script = []; out = out ++ (b ∷ buf) }, none)
write_all (interrupted ∷ script) out (b ∷ buf) = write_all script out (b ∷ buf)
write_all (fails e ∷ script) out (b ∷ buf) = (record { script = script; out = out }, some e)
write_all (moves n ∷ script) out (b ∷ buf) =
    write_all script (out ++ take n (b ∷ buf)) (drop n (b ∷ buf))

abbrev pub eproto : ℕ
eproto = 71

-- What drain_pipe returns: records, or an errno.
pub data Drained : Type 0 where
  drained : List FailureRec → Drained
  drain_error : ℕ → Drained

abbrev pub cons_record : FailureRec → Drained → Drained
cons_record r (drained rs) = drained (r ∷ rs)
cons_record r (drain_error e) = drain_error e

-- How many bytes a read moves: at least one, at most what is asked for and what is there.
abbrev pub read_size : ℕ → List ℕ → List ℕ → ℕ
read_size n got pipe = min (suc n) (min (rec_sz - length got) (length pipe))

-- What a read that is not interrupted leads to: the end of the file, a record still short, or a
-- whole record; `left` is what is still unread.
pub data ReadStep : Type 0 where
  at_end : Drained → ReadStep
  short : List ℕ → List ℕ → ReadStep
  whole : FailureRec → List ℕ → ReadStep

-- The body of the inner loop of drain_pipe: `got` holds the bytes of the record so far. A read of 0
-- bytes is the end of the file.
unfoldable pub drain_read : ℕ → List ℕ → List ℕ → ReadStep
unfolding rec_of_bytes
drain_read n [] [] = at_end (drained [])
drain_read n [] (g ∷ got) = at_end (drain_error eproto)
drain_read n (b ∷ pipe) got =
    let k = read_size n got (b ∷ pipe) in
    let more = got ++ take k (b ∷ pipe) in
    let left = drop k (b ∷ pipe) in
    if length more == rec_sz then whole (rec_of_bytes more) left else short more left

-- The next call of the script, and the script after it.
abbrev pub next_transfer : List Transfer → Transfer × List Transfer
next_transfer [] = (moves rec_sz, [])
next_transfer (t ∷ script) = (t, script)

-- The two loops of drain_pipe; the fuel bounds the number of reads.
unfoldable pub drain_loop : ℕ → List Transfer → List ℕ → List ℕ → Option Drained
unfolding drain_read
drain_loop zero script pipe got = none
drain_loop (suc fuel) script pipe got = elim ((next_transfer script).0) [
  | interrupted ↦ drain_loop fuel ((next_transfer script).1) pipe got
  | fails e ↦ some (drain_error e)
  | moves n ↦ elim (drain_read n pipe got) [
    | at_end result ↦ some result
    | short more left ↦ drain_loop fuel ((next_transfer script).1) left more
    | whole r left ↦ elim (drain_loop fuel ((next_transfer script).1) left []) [
      | none ↦ none
      | some rest ↦ some (cons_record r rest)
    ]
  ]
]

-- drain_pipe, with fuel for every scripted call, every byte and the end of the file.
unfoldable pub drain_pipe : List Transfer → List ℕ → Option Drained
unfolding drain_loop
drain_pipe script pipe = drain_loop (length script + length pipe + 1) script pipe []
