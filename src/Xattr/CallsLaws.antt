-- ===== src/Xattr/CallsLaws.antt =====
-- src/cext/os/acl.c: what reading an ACL returns, and reading after setting.
use truenas_pyos.Prelude.Bits.{bit_and_seven}
use truenas_pyos.Prelude.Bytes.{le16, le32}
use truenas_pyos.Prelude.{
  ◌<◌, ◌/◌, ◌%◌, ◌^◌, true, sym, bit_and, arith, ℕ, ◌≡◌, ◌⊎◌, inl, inr, refl, ap, ◌∙◌, false,
  Option, none, some, List, length, ◌==◌, Bool-cases, ==_iff,
}
use truenas_pyos.Py.{>>=-eq-ok, ◌>>◌, ok, raise, os_error, ◌>>=◌}
use truenas_pyos.Xattr.Calls.{
  Call, Reply, XattrKernel, XattrName, access_acl, check_signals, default_acl, do_fgetacl,
  do_fsetacl_posix, done, enodata, eopnotsupp, failed, fgetacl_posix, nfs4_acl, or_gone,
  or_os_error, posix_access, posix_data, posix_default, read_xattr_raw, remove_quietly, retry,
  synthesize_posix_access_from_mode,
}
use truenas_pyos.Xattr.GenericLaws.{filled}

-- No signal handler raises while the call is retried.
abbrev pub IsQuiet : {A : Type 0} → Call A → Type 0
IsQuiet c = check_signals c.signals ≡ ok tt

-- The kernel answers for an attribute with the bytes that it holds, or with an errno.
abbrev pub Holds : XattrKernel → XattrName → List ℕ → Type 0
Holds k name bytes =
    IsQuiet (k.probe name)
    × ((k.probe name).reply ≡ done (length bytes))
    × IsQuiet (k.read name (length bytes))
    × ((k.read name (length bytes)).reply ≡ done bytes)

abbrev pub Lacks : XattrKernel → XattrName → ℕ → Type 0
Lacks k name e = IsQuiet (k.probe name) × ((k.probe name).reply ≡ failed e)

-- The default ACL of a file, as the kernel answers for it.
abbrev pub HoldsDefault : XattrKernel → Option (List ℕ) → Type 0
HoldsDefault k none = Lacks k posix_default enodata
HoldsDefault k (some bytes) = Holds k posix_default bytes × ((length bytes == 0) ≡ false)

-- A run that returns has made its calls: the access ACL is set, and the default ACL is set or is gone.
abbrev pub WasSet : XattrKernel → List ℕ → Option (List ℕ) → Type 0
WasSet k access none =
    ((k.set posix_access access).reply ≡ done tt)
    × (((k.remove posix_default).reply ≡ done tt)
        ⊎ ((k.remove posix_default).reply ≡ failed enodata))
WasSet k access (some bytes) =
    ((k.set posix_access access).reply ≡ done tt) × ((k.set posix_default bytes).reply ≡ done tt)

retry-eq-ok : {A : Type 0} (c : Call A) (r : Reply A) → retry c ≡ ok r → c.reply ≡ r
unfolding retry
retry-eq-ok c r e = let (_, _, q) = >>=-eq-ok (check_signals c.signals) (λ _. ok c.reply) e in cc

retry_quiet : {A : Type 0} (c : Call A) → IsQuiet c → retry c ≡ ok c.reply
unfolding retry
retry_quiet c h = rw h refl

returned : (r : Reply (Unit {0})) → or_os_error r ≡ ok tt → r ≡ done tt
returned (done u) e = refl
returned (failed n) e = cc

made : (c : Call (Unit {0})) → (retry c >>= or_os_error) ≡ ok tt → c.reply ≡ done tt
made c e = let (r, e1, e2) = >>=-eq-ok (retry c) or_os_error e in retry-eq-ok c r e1 ∙ returned r e2

gone : (r : Reply (Unit {0})) → or_gone r ≡ ok tt → (r ≡ done tt) ⊎ (r ≡ failed enodata)
gone (done u) e = inl refl
gone (failed n) e = elim (Bool-cases (n == enodata)) [
  | inl h ↦ inr (ap failed ((==_iff n enodata).0 h))
  | inr h ↦ let q : or_gone (failed n) ≡ raise (os_error n) = rw h refl in cc
]

remove_quietly-eq-ok :
    (k : XattrKernel) (name : XattrName)
    → remove_quietly k name ≡ ok tt
    → ((k.remove name).reply ≡ done tt) ⊎ ((k.remove name).reply ≡ failed enodata)
unfolding remove_quietly
remove_quietly-eq-ok k name e =
    let (r, e1, e2) = >>=-eq-ok (retry (k.remove name)) or_gone e in
    let q = retry-eq-ok (k.remove name) r e1 in
    elim (gone r e2) [ inl d ↦ inl (q ∙ d) | inr f ↦ inr (q ∙ f) ]

do_fsetacl_posix-WasSet :
    (k : XattrKernel) (access : List ℕ) (default_data : Option (List ℕ))
    → do_fsetacl_posix k access default_data ≡ ok tt
    → WasSet k access default_data
unfolding do_fsetacl_posix
do_fsetacl_posix-WasSet k access none e =
    let (r, e1, e2) =
      >>=-eq-ok (retry (k.set posix_access access))
        (λ r. or_os_error r >> remove_quietly k posix_default) e in
    let (u, e3, e4) = >>=-eq-ok (or_os_error r) (λ _. remove_quietly k posix_default) e2 in
    (
      retry-eq-ok (k.set posix_access access) r e1 ∙ returned r e3,
      remove_quietly-eq-ok k posix_default e4,
    )
do_fsetacl_posix-WasSet k access (some bytes) e =
    let last = retry (k.set posix_default bytes) >>= or_os_error in
    let (r, e1, e2) =
      >>=-eq-ok (retry (k.set posix_access access)) (λ r. or_os_error r >> last) e in
    let (u, e3, e4) = >>=-eq-ok (or_os_error r) (λ _. last) e2 in
    (
      retry-eq-ok (k.set posix_access access) r e1 ∙ returned r e3,
      made (k.set posix_default bytes) e4,
    )

read_xattr_raw-Holds :
    (k : XattrKernel) (name : XattrName) (bytes : List ℕ)
    → Holds k name bytes
    → read_xattr_raw k name (length bytes) ≡ ok bytes
unfolding read_xattr_raw
read_xattr_raw-Holds k name bytes h = rw (retry_quiet (k.read name (length bytes)) h.2, h.3) refl

-- The default ACL of the file, asked for and read.
default_acl-HoldsDefault :
    (k : XattrKernel) (default_data : Option (List ℕ))
    → HoldsDefault k default_data
    → (retry (k.probe posix_default) >>= default_acl k) ≡ ok default_data
unfolding default_acl
default_acl-HoldsDefault k none h = rw (retry_quiet (k.probe posix_default) h.0, h.1) refl
default_acl-HoldsDefault k (some bytes) h =
    rw
      (
        retry_quiet (k.probe posix_default) h.0.0,
        h.0.1,
        h.1,
        read_xattr_raw-Holds k posix_default bytes h.0,
      )
      refl

fgetacl_posix-Holds :
    (k : XattrKernel) (access : List ℕ) (default_data : Option (List ℕ))
    → (length access == 0) ≡ false
    → Holds k posix_access access
    → HoldsDefault k default_data
    → fgetacl_posix k ≡ ok (posix_data access false default_data)
unfolding fgetacl_posix access_acl
fgetacl_posix-Holds k access default_data filled h d =
    let (r, e1, e2) =
      >>=-eq-ok (retry (k.probe posix_default)) (default_acl k)
        (default_acl-HoldsDefault k default_data d) in
    rw
      (
        retry_quiet (k.probe posix_access) h.0,
        h.1,
        filled,
        read_xattr_raw-Holds k posix_access access h,
        e1,
        e2,
      )
      refl

-- The bytes of an access ACL with three entries, which acl(5) calls a minimal ACL: one for each of
-- the owner, the group and the others, as mode bits have.
abbrev pub minimal_size : ℕ
minimal_size = 28

-- What the kernel answers for an access ACL that was set on a file: a minimal ACL has become the
-- permission bits of the file's mode and no attribute is left; one with more entries is an attribute.
abbrev pub Keeps : XattrKernel → List ℕ → Type 0
Keeps k access =
    ((mode : ℕ) × (st : ℕ) × (access ≡ synthesize_posix_access_from_mode mode)
      × Lacks k posix_access enodata
      × (k.fstat ≡ done st)
      × (st % 2 ^ 9 ≡ mode % 2 ^ 9))
    ⊎ ((minimal_size < length access) × Holds k posix_access access)

synthesized-eq :
    (st mode : ℕ)
    → st % 2 ^ 9 ≡ mode % 2 ^ 9
    → synthesize_posix_access_from_mode st ≡ synthesize_posix_access_from_mode mode
unfolding synthesize_posix_access_from_mode
synthesized-eq st mode h =
    let user : bit_and (st / 2 ^ 6) 7 ≡ bit_and (mode / 2 ^ 6) 7 =
      omega (arith, bit_and_seven (st / 2 ^ 6), bit_and_seven (mode / 2 ^ 6)) in
    let group : bit_and (st / 2 ^ 3) 7 ≡ bit_and (mode / 2 ^ 3) 7 =
      omega (arith, bit_and_seven (st / 2 ^ 3), bit_and_seven (mode / 2 ^ 3)) in
    let other : bit_and st 7 ≡ bit_and mode 7 =
      omega (arith, bit_and_seven st, bit_and_seven mode) in
    rw (user, group, other) refl

length-synthesized : (mode : ℕ) → length (synthesize_posix_access_from_mode mode) ≡ minimal_size
unfolding synthesize_posix_access_from_mode le16 le32
length-synthesized mode = refl

fgetacl_posix-folded :
    (k : XattrKernel) (st : ℕ) (default_data : Option (List ℕ))
    → Lacks k posix_access enodata
    → k.fstat ≡ done st
    → HoldsDefault k default_data
    → fgetacl_posix k ≡ ok (posix_data (synthesize_posix_access_from_mode st) true default_data)
unfolding fgetacl_posix access_acl
fgetacl_posix-folded k st default_data lacks mode d =
    let (r, e1, e2) =
      >>=-eq-ok (retry (k.probe posix_default)) (default_acl k)
        (default_acl-HoldsDefault k default_data d) in
    rw (retry_quiet (k.probe posix_access) lacks.0, lacks.1, mode, e1, e2) refl

fgetacl_posix-Keeps :
    (k : XattrKernel) (access : List ℕ) (default_data : Option (List ℕ))
    → Keeps k access
    → HoldsDefault k default_data
    → fgetacl_posix k ≡ ok (posix_data access (length access == minimal_size) default_data)
fgetacl_posix-Keeps k access default_data kept d = elim kept [
  | inl (mode, st, is, lacks, found, bits) ↦
      let same : synthesize_posix_access_from_mode st ≡ access =
        synthesized-eq st mode bits ∙ sym is in
      let small : (length access == minimal_size) ≡ true =
        rw (ap length is ∙ length-synthesized mode) refl in
      fgetacl_posix-folded k st default_data lacks found d ∙ rw (same, small) refl
  | inr (large, holds) ↦
      let long : (length access == minimal_size) ≡ false = ground arith in
      rw long (fgetacl_posix-Holds k access default_data (ground arith) holds d)
]

-- An access ACL and a default ACL that is not empty or is none come back from do_fgetacl when
-- do_fsetacl_posix has returned. The kernel `k'` answers after the calls that were made to `k`.
pub do_fgetacl-do_fsetacl_posix :
    (k k' : XattrKernel) (access : List ℕ) (default_data : Option (List ℕ))
    → Lacks k' nfs4_acl eopnotsupp
    → (WasSet k access default_data → Keeps k' access × HoldsDefault k' default_data)
    → do_fsetacl_posix k access default_data ≡ ok tt
    → do_fgetacl k' ≡ ok (posix_data access (length access == minimal_size) default_data)
unfolding do_fgetacl
do_fgetacl-do_fsetacl_posix k k' access default_data no_nfs4 after e =
    let (kept, rest) = after (do_fsetacl_posix-WasSet k access default_data e) in
    rw (retry_quiet (k'.probe nfs4_acl) no_nfs4.0, no_nfs4.1)
      (fgetacl_posix-Keeps k' access default_data kept rest)
