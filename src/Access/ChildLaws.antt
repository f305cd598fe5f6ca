-- ===== src/Access/ChildLaws.antt =====
-- What the child of check_path_access puts on the result pipe, from what the system calls it makes
-- are documented to do.
use mathlib.Core.List.{append_assoc, append-nil}
use truenas_pyos.Prelude.{
  ℕ, ◌+◌, ◌<◌, ◌≤◌, if◌then◌else◌, ==_iff, ◌≡◌, refl, ap, sym, ◌∙◌, inl, inr, Bool, not, ◌&&◌,
  Option, none, some, List, [], ◌∷◌, ◌++◌, length, All, arith, ◌==◌, ◌^◌, Bool-cases, Option-cases,
}
use truenas_pyos.Prelude.Bytes.{c_string, le32, read_le32}
use truenas_pyos.Access.Child.{
  Kernel, done, enoent, exited, goes_on, probe_components, run_check_child, swap_creds,
}
use truenas_pyos.Access.Creds.{Cred, uint32_max}
use truenas_pyos.Access.Denials.{denied, denied-cons, reported, write_all-append}
use truenas_pyos.Access.Pipe.{FailureRec, Writer, drained, rec_bytes, rec_of_bytes}
use truenas_pyos.Access.PipeLaws.{IsHarmless, chunk, records_of, records_of-whole}
use truenas_pyos.Access.KernelLaws.{ngroups_max, KernelLaws}

unfoldable pub bytes_of : List FailureRec → List ℕ
bytes_of [] = []
bytes_of (r ∷ rs) = rec_bytes r ++ bytes_of rs

module _ {Task : Type 0} (kernel : Kernel Task) where
  probe_components-denied :
      (path_must_exist : Bool) (mode ci : ℕ) (task : Task) (answer : List ℕ → Option ℕ)
      → ((path : List ℕ) → kernel.faccessat2 path mode task ≡ answer path)
      → (pi : ℕ) (paths : List (List ℕ)) (w : Writer) → All IsHarmless w.script
      → (w' : Writer) × (probe_components kernel path_must_exist mode ci task pi paths w
          ≡ goes_on w')
        × (w'.out ≡ w.out ++ bytes_of (denied path_must_exist answer ci pi paths))
        × All IsHarmless w'.script
  unfolding probe_components bytes_of
  probe_components-denied pme mode ci task answer h pi [] w k = (w, refl, sym (append-nil w.out), k)
  probe_components-denied pme mode ci task answer h pi (path ∷ paths) w k =
      elim (Option-cases (answer (c_string path))) [
        | inl e ↦
            rw
              (
                denied-cons pme answer ci pi path paths (ap (reported pme) e),
                probe_components,
                h (c_string path),
                e,
              )
              (probe_components-denied pme mode ci task answer h (pi + 1) paths w k)
        | inr (err, e) ↦ elim (Bool-cases (err == enoent && not pme)) [
          | inl skip ↦
              rw
                (
                  denied-cons pme answer ci pi path paths {verdict = none}
                      (ap (reported pme) e ∙ rw skip refl),
                  probe_components,
                  h (c_string path),
                  e,
                  skip,
                )
                (probe_components-denied pme mode ci task answer h (pi + 1) paths w k)
          | inr report ↦
              let r : FailureRec = record { cred_idx = ci; comp_idx = pi; err = err } in
              let (w1, written, o1, k1) = write_all-append w.script w.out (rec_bytes r) k in
              let (w2, done2, o2, k2) =
                probe_components-denied pme mode ci task answer h (pi + 1) paths w1 k1 in
              rw
                (
                  denied-cons pme answer ci pi path paths {verdict = some err}
                      (ap (reported pme) e ∙ rw report refl),
                  probe_components,
                  h (c_string path),
                  e,
                  report,
                  written,
                )
                (
                  w2,
                  rw written done2,
                  o2
                      ∙ rw o1 (
                          append_assoc w.out (rec_bytes r)
                            (bytes_of (denied pme answer ci (pi + 1) paths))),
                  k2,
                )
        ]
      ]

-- The user that a credential is probed as: a user id of 2 ^ 32 - 1 leaves the child root.
abbrev pub probed_uid : Cred → ℕ
probed_uid c = if c.uid == uint32_max then 0 else c.uid

-- A user id of 32 bits, and a group and groups that the kernel takes.
abbrev pub IsSwappable : Cred → Type 0
IsSwappable c =
    (c.uid ≤ uint32_max)
    × (c.gid < uint32_max)
    × (length c.groups ≤ ngroups_max)
    × All (λ g. g < uint32_max) c.groups

module _ {Task : Type 0} (kernel : Kernel Task) (laws : KernelLaws kernel) where
  -- The answer to a probe as one of the credentials.
  abbrev pub answer_of : Cred → ℕ → List ℕ → Option ℕ
  answer_of c mode path = laws.access (probed_uid c) c.gid c.groups path mode

  -- The last call of the four, for any user id.
  setresuid-probed_uid :
      (c : Cred) (t : Task)
      → laws.IsRoot t
      → c.uid ≤ uint32_max
      → (t' : Task) × (kernel.setresuid c.uid c.uid 0 t ≡ done t')
        × laws.IsRootable t'
        × (laws.euid t' ≡ probed_uid c)
        × (laws.egid t' ≡ laws.egid t)
        × (laws.groups t' ≡ laws.groups t)
  setresuid-probed_uid c t root fits = elim (Bool-cases (c.uid == uint32_max)) [
    | inl same ↦
        let (t', e, r, u, g, s) = laws.keep_uid t root in
        let is_max : c.uid ≡ uint32_max = (==_iff c.uid uint32_max).0 same in
        (t', rw is_max e, r, rw same (u ∙ laws.root_euid t root), g, s)
    | inr other ↦
        let (t', e, r, u, g, s) = laws.set_uid t c.uid root (ground arith) in
        (t', e, r, rw other u, g, s)
  ]

  swap_creds-answer :
      (c : Cred) (task : Task) (w : Writer)
      → laws.IsRootable task
      → IsSwappable c
      → (t : Task) × (swap_creds kernel c task w ≡ goes_on t)
        × laws.IsRootable t
        × ((mode : ℕ) (path : List ℕ) → kernel.faccessat2 path mode t ≡ answer_of c mode path)
  unfolding swap_creds
  swap_creds-answer c task w h fit =
      let (t1, e1, r1) = laws.become_root task h in
      let (t2, e2, r2, g2) = laws.set_gid t1 c.gid r1 fit.1 in
      let (t3, e3, r3, g3, s3) = laws.set_groups t2 c.groups r2 fit.2 fit.3 in
      let (t4, e4, r4, u4, g4, s4) = setresuid-probed_uid c t3 r3 fit.0 in
      (
        t4,
        rw (e1, e2, e3, e4) refl,
        r4,
        λ mode path. laws.probe t4 path mode ∙ rw (u4, g4, s4, g3, s3, g2) refl,
      )

  -- The records of all credentials from index ci on.
  abbrev pub denied_all : Bool → ℕ → List (List ℕ) → ℕ → List Cred → List FailureRec
  denied_all path_must_exist mode paths ci [] = []
  denied_all path_must_exist mode paths ci (c ∷ creds) =
      denied path_must_exist (answer_of c mode) ci 0 paths
      ++ denied_all path_must_exist mode paths (ci + 1) creds

  bytes_of-append : (xs ys : List FailureRec) → bytes_of (xs ++ ys) ≡ bytes_of xs ++ bytes_of ys
  unfolding bytes_of
  bytes_of-append [] ys = refl
  bytes_of-append (x ∷ xs) ys =
      ap (λ l. rec_bytes x ++ l) (bytes_of-append xs ys)
      ∙ sym (append_assoc (rec_bytes x) (bytes_of xs) (bytes_of ys))

  -- Where no write fails, a child that starts with saved user id 0 exits with 0, if the user ids have
  -- 32 bits and the kernel takes each group and list of groups. It has written one record for each
  -- credential and component, in that order, whose probe the kernel refuses to that user, group and
  -- groups, ENOENT excepted unless the path must exist; and nothing else, however its writes are cut
  -- and interrupted. A credential with the user id 2 ^ 32 - 1 is probed as root.
  pub run_check_child-denied_all :
      (path_must_exist : Bool) (mode : ℕ) (paths : List (List ℕ)) (ci : ℕ) (creds : List Cred)
      (task : Task) (w : Writer)
      → laws.IsRootable task
      → All IsSwappable creds
      → All IsHarmless w.script
      → (w' : Writer) × (run_check_child kernel path_must_exist mode paths ci creds task w
          ≡ (exited 0, w'))
        × (w'.out ≡ w.out ++ bytes_of (denied_all path_must_exist mode paths ci creds))
  unfolding run_check_child bytes_of
  run_check_child-denied_all pme mode paths ci [] task w r fit k = (w, refl, sym (append-nil w.out))
  run_check_child-denied_all pme mode paths ci (c ∷ creds) task w r fit k =
      let (t, swapped, r1, answers) = swap_creds-answer c task w r fit.0 in
      let (w1, probed, o1, k1) =
        probe_components-denied kernel pme mode ci t (answer_of c mode) (answers mode) 0 paths w
          k in
      let (w2, ran, o2) =
        run_check_child-denied_all pme mode paths (ci + 1) creds t w1 r1 fit.1 k1 in
      let here = denied pme (answer_of c mode) ci 0 paths in
      let later = denied_all pme mode paths (ci + 1) creds in
      (
        w2,
        rw (run_check_child, swapped, probed) ran,
        o2
            ∙ rw o1 (append_assoc w.out (bytes_of here) (bytes_of later))
            ∙ ap (λ l. w.out ++ l) (sym (bytes_of-append here later)),
      )

-- A record whose fields fit their 32 bits.
abbrev pub FitsRecord : FailureRec → Type 0
FitsRecord r = (r.cred_idx < 2 ^ 32) × (r.comp_idx < 2 ^ 32) × (r.err < 2 ^ 32)

rec_of_bytes-rec_bytes : (r : FailureRec) → FitsRecord r → rec_of_bytes (rec_bytes r) ≡ r
unfolding rec_of_bytes rec_bytes le32 read_le32
rec_of_bytes-rec_bytes r h = ground arith

length-rec_bytes : (r : FailureRec) → length (rec_bytes r) ≡ 12
unfolding rec_bytes le32
length-rec_bytes r = refl

-- The records that a writer put on the pipe are the ones that a reader finds there.
pub records_of-bytes_of :
    (rs : List FailureRec) → All FitsRecord rs → records_of (bytes_of rs) ≡ drained rs
unfolding bytes_of chunk
records_of-bytes_of [] h = refl
records_of-bytes_of (r ∷ rs) h =
    rw
      (
        records_of-whole (rec_bytes r) (bytes_of rs) (length-rec_bytes r),
        rec_of_bytes-rec_bytes r h.0,
        records_of-bytes_of rs h.1,
      )
      refl
