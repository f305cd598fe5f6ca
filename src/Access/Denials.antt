-- ===== src/Access/Denials.antt =====
-- src/cext/os/acl_check.c: the answers of the probes as failures, and the bytes that are written.
use mathlib.Core.List.{append_assoc, append-nil}
use truenas_pyos.Prelude.{
  ℕ, ◌+◌, ◌≡◌, refl, ap, sym, ◌∙◌, Bool, not, ◌&&◌, Option, none, some, List, [], ◌∷◌, ◌++◌, take,
  drop, All, ◌==◌, if◌then◌else◌, take-append-drop,
}
use truenas_pyos.Prelude.Bytes.{c_string}
use truenas_pyos.Access.Child.{enoent}
use truenas_pyos.Access.Pipe.{FailureRec, Transfer, Writer, fails, interrupted, moves, write_all}
use truenas_pyos.Access.PipeLaws.{IsHarmless}

-- Without a failing call `write_all` writes the whole buffer.
pub write_all-append :
    (script : List Transfer) (out buf : List ℕ)
    → All IsHarmless script
    → (w : Writer) × (write_all script out buf ≡ (w, none))
      × (w.out ≡ out ++ buf)
      × All IsHarmless w.script
unfolding write_all
write_all-append script out [] h =
    (record { script = script; out = out }, refl, sym (append-nil out), h)
write_all-append [] out (b ∷ buf) h =
    (record { script = []; out = out ++ (b ∷ buf) }, refl, refl, tt)
write_all-append (interrupted ∷ script) out (b ∷ buf) h = write_all-append script out (b ∷ buf) h.1
write_all-append (fails e ∷ script) out (b ∷ buf) h = absurd h.0
write_all-append (moves n ∷ script) out (b ∷ buf) h =
    let (w, e, o, k) = write_all-append script (out ++ take n (b ∷ buf)) (drop n (b ∷ buf)) h.1 in
    (
      w,
      e,
      o
          ∙ append_assoc out (take n (b ∷ buf)) (drop n (b ∷ buf))
          ∙ ap (λ l. out ++ l) (take-append-drop n (b ∷ buf)),
      k,
    )

-- The answer of a probe that counts as a failure: any errno, but ENOENT only if the path must exist.
abbrev pub reported : Bool → Option ℕ → Option ℕ
reported path_must_exist none = none
reported path_must_exist (some e) = if e == enoent && not path_must_exist then none else some e

-- The record of a failure, before the rest.
abbrev pub note_failure : List FailureRec → ℕ → ℕ → Option ℕ → List FailureRec
note_failure rest ci pi none = rest
note_failure rest ci pi (some e) = record { cred_idx = ci; comp_idx = pi; err = e } ∷ rest

-- The records of one credential, whose answers are given, from component pi on.
abbrev pub denied : Bool → (List ℕ → Option ℕ) → ℕ → ℕ → List (List ℕ) → List FailureRec
denied path_must_exist answer ci pi [] = []
denied path_must_exist answer ci pi (path ∷ paths) =
    let rest = denied path_must_exist answer ci (pi + 1) paths in
    note_failure rest ci pi (reported path_must_exist (answer (c_string path)))

pub denied-cons :
    (path_must_exist : Bool) (answer : List ℕ → Option ℕ) (ci pi : ℕ) (path : List ℕ)
    (paths : List (List ℕ)) {verdict : Option ℕ}
    → reported path_must_exist (answer (c_string path)) ≡ verdict
    → denied path_must_exist answer ci pi (path ∷ paths)
      ≡ note_failure (denied path_must_exist answer ci (pi + 1) paths) ci pi verdict
denied-cons path_must_exist answer ci pi path paths e =
    ap (note_failure (denied path_must_exist answer ci (pi + 1) paths) ci pi) e
