-- ===== src/Xattr/GenericLaws.antt =====
-- src/cext/os/xattr.c: the end of the loop that reads a value, and the names of a list.
use truenas_pyos.Prelude.{
  ℕ, zero, suc, ◌≤◌, ◌≡◌, refl, inl, inr, false, Option, none, some, List, [], ◌∷◌, ◌++◌, map,
  length, drop, All, ltb, ◌==◌, if◌then◌else◌, arith, Bool-cases, length-append, ltb_of_le,
  ltb-false→le, ltb→lt, lt→ltb, ◌≢◌,
}
use truenas_pyos.Py.{Result, ok, raise, Exc, os_error, ◌>>=◌}
use truenas_pyos.Xattr.Calls.{Call, check_signals, done, failed, retry}
use truenas_pyos.Xattr.Generic.{
  Round, c_name, do_fgetxattr, do_flistxattr, e2big, erange, get_round, list_bytes, names_loop,
  probe_size, read_reply, xattr_list_max, xattr_size_max,
}

-- Interrupted tries whose signal handlers raise nothing.
abbrev pub quiet : ℕ → List (Option Exc)
quiet zero = []
quiet (suc n) = none ∷ quiet n

check_signals-quiet : (n : ℕ) → check_signals (quiet n) ≡ ok tt
unfolding check_signals
check_signals-quiet zero = refl
check_signals-quiet (suc n) = check_signals-quiet n

-- A call that is interrupted `tries` times and then copies bytes into a buffer of `size`.
abbrev pub filled : ℕ → List ℕ → ℕ → Call (List ℕ)
filled tries bytes size = record {
  signals = quiet tries;
  reply = if ltb size (length bytes) then failed erange else done bytes;
}

abbrev pub bufsize_for : ℕ → ℕ
bufsize_for size = if ltb 0 size then size else 1

-- The rounds over a value that others may change: what it is at the probe of a round and at its read,
-- with the interrupted tries of both calls.
abbrev pub rounds_of : (ℕ → List ℕ) → (ℕ → List ℕ) → (ℕ → ℕ) → (ℕ → ℕ) → ℕ → Round
rounds_of probed held probes reads i = record {
  probe = record { signals = quiet (probes i); reply = done (length (probed i)) };
  read = filled (reads i) (held i);
}

retry-filled :
    (tries : ℕ) (bytes : List ℕ) (size : ℕ)
    → (retry (filled tries bytes size) >>= λ reply. read_reply reply)
      ≡ (if ltb size (length bytes) then ok none else ok (some bytes))
unfolding retry read_reply
retry-filled tries bytes size = elim (Bool-cases (ltb size (length bytes))) [
  | inl b ↦ rw (check_signals-quiet tries, b) refl
  | inr b ↦ rw (check_signals-quiet tries, b) refl
]

get_round-rounds_of :
    (probed held : ℕ → List ℕ) (probes reads : ℕ → ℕ) (i : ℕ)
    → length (probed i) ≤ xattr_size_max
    → get_round (rounds_of probed held probes reads i) ≡ (
        if ltb (bufsize_for (length (probed i))) (length (held i))
        then ok none
        else ok (some (held i)))
unfolding get_round probe_size retry
get_round-rounds_of probed held probes reads i h =
    rw (check_signals-quiet (probes i), ltb_of_le xattr_size_max (length (probed i)) h)
      (retry-filled (reads i) (held i) (bufsize_for (length (probed i))))

le-bufsize_for : (size : ℕ) → size ≤ bufsize_for size
le-bufsize_for size = elim (Bool-cases (ltb 0 size)) [
  | inl b ↦ rw b (omega arith)
  | inr b ↦ let none_left = ltb-false→le 0 size b in omega arith
]

-- Where the value is never longer than the limit at a probe, the handlers of interrupting signals raise
-- nothing, and in round `n` the value has not grown between the probe and the read, the loop ends
-- within its first `n + 1` rounds, however the value changes: it returns the whole value as it stood
-- at the read of one of these rounds.
pub do_fgetxattr-ends :
    (n : ℕ) (probed held : ℕ → List ℕ) (probes reads : ℕ → ℕ)
    → ((i : ℕ) → length (probed i) ≤ xattr_size_max)
    → length (held n) ≤ length (probed n)
    → (k : ℕ) × (k ≤ n)
      × (do_fgetxattr (suc n) (rounds_of probed held probes reads) ≡ some (ok (held k)))
unfolding do_fgetxattr
do_fgetxattr-ends zero probed held probes reads small h =
    let fits =
      ltb_of_le (bufsize_for (length (probed 0))) (length (held 0))
        (let b = le-bufsize_for (length (probed 0)) in omega arith) in
    (0, omega arith, rw (get_round-rounds_of probed held probes reads 0 (small 0), fits) refl)
do_fgetxattr-ends (suc n) probed held probes reads small h =
    elim (Bool-cases (ltb (bufsize_for (length (probed 0))) (length (held 0)))) [
      | inl b ↦
          let (k, below, e) =
            do_fgetxattr-ends n (λ i. probed (suc i)) (λ i. held (suc i)) (λ i. probes (suc i))
              (λ i. reads (suc i)) (λ i. small (suc i)) h in
          (suc k, omega arith, rw (get_round-rounds_of probed held probes reads 0 (small 0), b) e)
      | inr b ↦
          (0, omega arith, rw (get_round-rounds_of probed held probes reads 0 (small 0), b) refl)
    ]

-- A name list as the kernel writes it: each name with a NUL behind it.
unfoldable pub name_list : List (List ℕ) → List ℕ
name_list [] = []
name_list (s ∷ names) = s ++ (0 ∷ name_list names)

abbrev pub HasNoNul : List ℕ → Type 0
HasNoNul = All (λ b. (b == 0) ≡ false)

c_name-append : (s rest : List ℕ) → HasNoNul s → c_name (s ++ (0 ∷ rest)) ≡ ok s
unfolding c_name
c_name-append [] rest h = refl
c_name-append (b ∷ s) rest h = rw (h.0, c_name-append s rest h.1) refl

drop-suc-append : (s rest : List ℕ) → drop (suc (length s)) (s ++ (0 ∷ rest)) ≡ rest
drop-suc-append [] rest = refl
drop-suc-append (b ∷ s) rest = drop-suc-append s rest

names_loop-name :
    {Obj : Type 0} (decode : List ℕ → Result Obj) (fuel : ℕ) (s rest : List ℕ) (name : Obj)
    → HasNoNul s
    → decode s ≡ ok name
    → names_loop decode (suc fuel) (s ++ (0 ∷ rest))
      ≡ (names_loop decode fuel rest >>= λ names. ok (name ∷ names))
unfolding names_loop c_name
names_loop-name decode fuel [] rest name h d = rw d refl
names_loop-name decode fuel (b ∷ s) rest name h d =
    rw (h.0, c_name-append s rest h.1, d, drop-suc-append s rest) refl

names_loop-name_list :
    {Obj : Type 0} (decode : List ℕ → Result Obj) (text : List ℕ → Obj) (fuel : ℕ)
    (names : List (List ℕ))
    → ((s : List ℕ) → decode s ≡ ok (text s))
    → All HasNoNul names
    → length (name_list names) ≤ fuel
    → names_loop decode fuel (name_list names) ≡ ok (map text names)
unfolding name_list names_loop
names_loop-name_list decode text fuel [] d h enough = refl
names_loop-name_list decode text zero (s ∷ names) d h enough =
    let l = length-append s (0 ∷ name_list names) in
    let none_left : length (name_list (s ∷ names)) ≢ 0 = omega arith in
    elim (none_left (omega arith)) [ ]
names_loop-name_list decode text (suc fuel) (s ∷ names) d h enough =
    let l = length-append s (0 ∷ name_list names) in
    rw
      (
        names_loop-name decode fuel s (name_list names) (text s) h.0 (d s),
        names_loop-name_list decode text fuel names d h.1 (omega arith),
      )
      refl

list_bytes-filled :
    (tries : ℕ → ℕ) (bytes : List ℕ) (sizes : List ℕ) (size : ℕ)
    → list_bytes (size ∷ sizes) (λ n. filled (tries n) bytes n) ≡ (
        if ltb size (length bytes)
        then list_bytes sizes (λ n. filled (tries n) bytes n)
        else ok bytes)
unfolding list_bytes retry read_reply
list_bytes-filled tries bytes sizes size = elim (Bool-cases (ltb size (length bytes))) [
  | inl b ↦ rw (check_signals-quiet (tries size), b) refl
  | inr b ↦ rw (check_signals-quiet (tries size), b) refl
]

-- Where all bytes decode, the stored names are free of NULs, the handlers of interrupting signals raise
-- nothing, and the kernel answers ERANGE just when the list does not fit the buffer, do_flistxattr
-- raises E2BIG when the list is longer than XATTR_LIST_MAX, and else returns the texts of all names in
-- their order.
pub do_flistxattr-name_list :
    {Obj : Type 0} (decode : List ℕ → Result Obj) (text : List ℕ → Obj) (tries : ℕ → ℕ)
    (names : List (List ℕ))
    → ((s : List ℕ) → decode s ≡ ok (text s))
    → All HasNoNul names
    → do_flistxattr decode (λ size. filled (tries size) (name_list names) size) ≡ (
        if ltb xattr_list_max (length (name_list names))
        then raise (os_error e2big)
        else ok (map text names))
unfolding do_flistxattr list_bytes
do_flistxattr-name_list decode text tries names d h =
    let bytes = name_list names in
    let parsed = names_loop-name_list decode text (length bytes) names d h (omega arith) in
    rw
      (
        list_bytes-filled tries bytes (xattr_list_max ∷ []) 256,
        list_bytes-filled tries bytes [] xattr_list_max,
      )
      (elim (Bool-cases (ltb xattr_list_max (length bytes))) [
        | inl c ↦
            let long = ltb→lt xattr_list_max (length bytes) c in
            rw (lt→ltb 256 (length bytes) (omega arith), c) refl
        | inr c ↦ elim (Bool-cases (ltb 256 (length bytes))) [
          | inl b ↦ rw (b, c) parsed
          | inr b ↦ rw (b, c) parsed
        ]
      ])
