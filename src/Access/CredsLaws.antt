-- ===== src/Access/CredsLaws.antt =====
-- Entries made by create_cred_entry, as check_path_access parses them.
use truenas_pyos.Prelude.{
  ℕ, ◌≤◌, ◌≡◌, refl, ap, Bool, true, false, Option, none, some, List, [], ◌∷◌, map, arith, ltb,
}
use mathlib.Core.Path.{subst}
use truenas_pyos.Prelude.Int.{pos, negsuc}
use truenas_pyos.Py.{
  PyValue, Exc, int, py_none, object, Result, ok, raise, out_of_bounds, as_unsigned_long, raise_if,
  >>=-eq-ok,
}
use truenas_pyos.Access.Creds.{
  CredEntry, IdName, cred_entry, do_create_cred_entry, group_id, group_ids, not_str, parse_cred,
  parse_groups, sequence_fast, str, uint32_max,
}

group_id-le : (v : PyValue) {g : ℕ} → group_id v ≡ ok g → g ≤ uint32_max
unfolding group_id as_unsigned_long
group_id-le (int (pos n)) h = ground arith
group_id-le (int (negsuc n)) h = cc
group_id-le py_none h = cc
group_id-le object h = cc

group_id-pos : (g : ℕ) → g ≤ uint32_max → group_id (int (pos g)) ≡ ok g
unfolding group_id as_unsigned_long
group_id-pos g h = ground arith

-- Ids that were accepted once are accepted as the integers that stand for them.
group_ids-map :
    (vs : List PyValue) (gs : List ℕ)
    → group_ids vs ≡ ok gs
    → group_ids (map (λ g. int (pos g)) gs) ≡ ok gs
unfolding group_ids
group_ids-map [] [] h = refl
group_ids-map [] (g ∷ gs) h = cc
group_ids-map (v ∷ vs) gs h =
    let (g, first, tail) = >>=-eq-ok (group_id v) _ h in
    let (rest, later, made) = >>=-eq-ok (group_ids vs) _ tail in
    let same : g ∷ rest ≡ gs = cc in
    subst (λ l. group_ids (map (λ g'. int (pos g')) l) ≡ ok l) same
      (rw (group_id-pos g (group_id-le v first), group_ids-map vs rest later) refl)

value_or {ℓ} : {A : Type ℓ} → A → Result A → A
value_or d (ok a) = a
value_or d (raise e) = d
value_or d out_of_bounds = d

ok-eq {ℓ} : {A : Type ℓ} {a b : A} → ◌≡◌ {A = Result A} (ok a) (ok b) → a ≡ b
unfolding value_or
ok-eq {a = a} e = ap (value_or a) e

raise_if-eq-ok : (b : Bool) (e : Exc) {u : Unit {0}} → raise_if b e ≡ ok u → b ≡ false
raise_if-eq-ok true e h = cc
raise_if-eq-ok false e h = refl

uid_accepted : (n : ℕ) → ltb uint32_max n ≡ false → as_unsigned_long (int (pos n)) ≡ ok n
unfolding as_unsigned_long
uid_accepted n h = ground arith

-- An entry that `create_cred_entry` returns is parsed without an error, to the user id and the
-- group id it was made from and the groups that the caller's sequence stands for.
pub parse_cred-do_create_cred_entry :
    (name : IdName) (uid gid : ℕ) (groups : Option (List PyValue)) {e : CredEntry}
    → do_create_cred_entry name uid gid groups ≡ ok e
    → (gs : List ℕ) × (parse_groups groups ≡ ok gs)
      × (parse_cred (cred_entry e)
          ≡ ok (record { id_name = name; uid = uid; gid = gid; groups = gs }))
unfolding do_create_cred_entry parse_cred parse_groups sequence_fast
parse_cred-do_create_cred_entry not_str uid gid groups h = cc
parse_cred-do_create_cred_entry (str name) uid gid none h =
    let (a, p, h1) = >>=-eq-ok (raise_if (ltb uint32_max uid) _) _ h in
    let (b, q, h2) = >>=-eq-ok (raise_if (ltb uint32_max gid) _) _ h1 in cc
parse_cred-do_create_cred_entry (str name) uid gid (some vs) {e} h =
    let (a, p, h1) = >>=-eq-ok (raise_if (ltb uint32_max uid) _) _ h in
    let (b, q, h2) = >>=-eq-ok (raise_if (ltb uint32_max gid) _) _ h1 in
    let (gs, parsed, made) = >>=-eq-ok (group_ids vs) _ h2 in
    let small_uid = raise_if-eq-ok (ltb uint32_max uid) _ p in
    let small_gid = raise_if-eq-ok (ltb uint32_max gid) _ q in
    let same : record {
      id_name = str name;
      uid = int (pos uid);
      gid = int (pos gid);
      groups = some (map (λ g. int (pos g)) gs);
    }
        ≡ e =
      ok-eq made in
    (
      gs,
      parsed,
      subst
          (λ x.
            parse_cred (cred_entry x)
            ≡ ok (record { id_name = str name; uid = uid; gid = gid; groups = gs }))
          same
          (rw
            (
              uid_accepted uid small_uid,
              uid_accepted gid small_gid,
              small_uid,
              small_gid,
              group_ids-map vs gs parsed,
            )
            refl),
    )
