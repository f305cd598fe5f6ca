-- ===== src/Xattr/Generic.antt =====
-- src/cext/os/xattr.c: reading, listing and setting the extended attributes of an open file. What the
-- kernel answers to each call is a parameter.
use truenas_pyos.Prelude.{
  ℕ, zero, suc, ◌*◌, Bool, not, ◌||◌, false, Option, none, some, List, [], ◌∷◌, length, drop, ltb,
  ◌==◌, if◌then◌else◌,
}
use truenas_pyos.Prelude.Int.{ℤ, pos, negsuc}
use truenas_pyos.Py.{
  Result, ok, raise, out_of_bounds, os_error, value_error, bad_xattr_flags, raise_if, ◌>>=◌, ◌>>◌,
}
use truenas_pyos.Xattr.Calls.{Call, Reply, done, failed, or_os_error, retry}

-- TRUENAS_XATTR_SIZE_MAX, and XATTR_LIST_MAX of <linux/limits.h>
abbrev pub xattr_size_max : ℕ
xattr_size_max = 2 * 1024 * 1024

abbrev pub xattr_list_max : ℕ
xattr_list_max = 65536

abbrev pub e2big : ℕ
e2big = 7

abbrev pub erange : ℕ
erange = 34

-- One pass of the outer loop of do_fgetxattr: the probe of the size, and the read into a buffer.
pub record Round : Type 0 where
  pub probe : Call ℕ
  pub read : ℕ → Call (List ℕ)

-- `none` for ERANGE, where the loop goes on.
unfoldable pub read_reply : {A : Type 0} → Reply A → Result (Option A)
read_reply (done x) = ok (some x)
read_reply (failed e) = if e == erange then ok none else raise (os_error e)

unfoldable pub probe_size : Call ℕ → Result ℕ
unfolding retry
probe_size probe = retry probe >>= λ reply. or_os_error reply >>= λ size.
    if ltb xattr_size_max size then raise (os_error e2big) else ok size

unfoldable pub get_round : Round → Result (Option (List ℕ))
unfolding probe_size retry read_reply
get_round r = probe_size r.probe >>= λ size.
    retry (r.read (if ltb 0 size then size else 1)) >>= λ reply. read_reply reply

-- Where a round ends the loop, its outcome, else that of the later rounds.
abbrev pub or_next : {A : Type 0} → Result (Option A) → Option (Result A) → Option (Result A)
or_next (ok (some x)) rest = some (ok x)
or_next (ok none) rest = rest
or_next (raise e) rest = some (raise e)
or_next out_of_bounds rest = some out_of_bounds

-- The loop, at most `fuel` rounds of it: `none` where it has not ended by then.
unfoldable pub do_fgetxattr : ℕ → (ℕ → Round) → Option (Result (List ℕ))
unfolding get_round
do_fgetxattr zero rounds = none
do_fgetxattr (suc fuel) rounds =
    let rest = do_fgetxattr fuel (λ i. rounds (suc i)) in or_next (get_round (rounds 0)) rest

-- The outcome of the loop over buffer_sizes, where it has one.
unfoldable pub list_bytes : List ℕ → (ℕ → Call (List ℕ)) → Result (List ℕ)
unfolding retry read_reply
list_bytes [] call = raise (os_error e2big)
list_bytes (bufsize ∷ sizes) call =
    let larger = list_bytes sizes call in
    retry (call bufsize) >>= λ reply.
    read_reply reply >>= λ got. elim got [ none ↦ larger | some bytes ↦ ok bytes ]

-- strlen, with the bytes it runs over: without a NUL it reads past the buffer.
unfoldable pub c_name : List ℕ → Result (List ℕ)
c_name [] = out_of_bounds
c_name (b ∷ p) = let rest = c_name p in if b == 0 then ok [] else rest >>= λ s. ok (b ∷ s)

-- The loop over the names in the buffer. A pass takes a byte at least, so their number is fuel enough.
unfoldable pub names_loop : {Obj : Type 0} → (List ℕ → Result Obj) → ℕ → List ℕ → Result (List Obj)
unfolding c_name
names_loop decode fuel [] = ok []
names_loop decode zero (b ∷ p) = out_of_bounds
names_loop decode (suc fuel) (b ∷ p) = c_name (b ∷ p) >>= λ s. decode s >>= λ name.
    names_loop decode fuel (drop (suc (length s)) (b ∷ p)) >>= λ names. ok (name ∷ names)

-- PyUnicode_DecodeFSDefaultAndSize is `decode`.
unfoldable pub do_flistxattr :
    {Obj : Type 0} → (List ℕ → Result Obj) → (ℕ → Call (List ℕ)) → Result (List Obj)
unfolding list_bytes names_loop
do_flistxattr decode call =
    list_bytes (256 ∷ xattr_list_max ∷ []) call >>= λ bytes. names_loop decode (length bytes) bytes

-- XATTR_CREATE is 1 and XATTR_REPLACE is 2.
abbrev is_set_flags : ℤ → Bool
is_set_flags (pos n) = n == 0 || n == 1 || n == 2
is_set_flags (negsuc n) = false

unfoldable pub do_fsetxattr : (List ℕ → ℤ → Call (Unit {0})) → List ℕ → ℤ → Result (Unit {0})
unfolding retry
do_fsetxattr call value flags =
    raise_if (not (is_set_flags flags)) (value_error bad_xattr_flags)
    >> raise_if (ltb xattr_size_max (length value)) (os_error e2big)
    >> (retry (call value flags) >>= λ reply. or_os_error reply)
