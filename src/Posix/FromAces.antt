-- ===== src/Posix/FromAces.antt =====
-- `POSIXACL.from_aces` and the readers `aces` and `default_aces` together.
use truenas_pyos.Prelude.{
  ℕ, ◌≡◌, refl, ap, ◌∙◌, Bool, true, false, Option, none, some, List, [], ◌∷◌, map, filter, All,
  not, All-imp, All-filter, Bool-cases, inl, inr,
}
use mathlib.Core.Path.{subst}
use truenas_pyos.Py.{ok}
use truenas_pyos.Py.Sort.{ListSort, ComparesBy, IsStableSort, All-perm}
use truenas_pyos.Posix.Types.{PosixAce, Item, ace, other, posix_ace_lt}
use truenas_pyos.Posix.Acl.{
  PosixAcl, posix_acl_init, checked_ace, split_aces, default_bytes_or_none, from_aces, get_aces,
  get_default_aces,
}
use truenas_pyos.Posix.EntryTrip.{IsStorable}
use truenas_pyos.Posix.RoundTrip.{
  blob_of, encode_posix_aces-blob_of, parse_posix_aces-blob_of, item_key, IsStorableItem,
  lt-item_key,
}

abbrev pub is_default : Item → Bool
is_default (ace a) = a.default_
is_default other = false

-- The entries of the access ACL and of the default ACL, in the caller's order.
abbrev pub access_of : List Item → List Item
access_of = filter (λ i. not (is_default i))

abbrev pub default_of : List Item → List Item
default_of = filter is_default

split_aces-filter :
    (items : List Item)
    → All IsStorableItem items
    → split_aces items
      ≡ ok (record { access_list = access_of items; default_list = default_of items })
unfolding split_aces checked_ace
split_aces-filter [] h = refl
split_aces-filter (ace a ∷ items) h =
    rw (split_aces-filter items h.1) (elim (Bool-cases a.default_) [ inl e ↦ rw e | inr e ↦ rw e ])
split_aces-filter (other ∷ items) h = absurd h.0

abbrev HasDefault : Bool → Item → Type 0
HasDefault b (ace a) = a.default_ ≡ b
HasDefault b other = ⊥

default_of-HasDefault :
    (items : List Item) → All IsStorableItem items → All (HasDefault true) (default_of items)
default_of-HasDefault [] h = tt
default_of-HasDefault (ace a ∷ items) h = elim (Bool-cases a.default_) [
  | inl e ↦ rw e (refl, default_of-HasDefault items h.1)
  | inr e ↦ rw e (default_of-HasDefault items h.1)
]
default_of-HasDefault (other ∷ items) h = absurd h.0

access_of-HasDefault :
    (items : List Item) → All IsStorableItem items → All (HasDefault false) (access_of items)
access_of-HasDefault [] h = tt
access_of-HasDefault (ace a ∷ items) h = elim (Bool-cases a.default_) [
  | inl e ↦ rw e (access_of-HasDefault items h.1)
  | inr e ↦ rw e (refl, access_of-HasDefault items h.1)
]
access_of-HasDefault (other ∷ items) h = absurd h.0

-- Storable items with one flag are entries with that flag.
entries_of :
    (b : Bool) (items : List Item)
    → All IsStorableItem items
    → All (HasDefault b) items
    → (xs : List PosixAce) × (items ≡ map ace xs) × All IsStorable xs × All (λ a. a.default_ ≡ b) xs
entries_of b [] h d = ([], refl, tt, tt)
entries_of b (ace a ∷ items) h d =
    let (xs, e, k, f) = entries_of b items h.1 d.1 in
    (a ∷ xs, ap (λ l. ace a ∷ l) e, (h.0, k), (d.0, f))
entries_of b (other ∷ items) h d = absurd h.0

ComparesBy-item_key :
    (items : List Item) → All IsStorableItem items → ComparesBy posix_ace_lt item_key items
ComparesBy-item_key items h =
    All-imp IsStorableItem _ items
      (λ x hx. All-imp IsStorableItem _ items (λ y hy. lt-item_key x y hx hy) h) h

-- One of the two lists, sorted, is a list of entries that are read back.
sorted_entries :
    (list_sort : ListSort Item) (b : Bool) (items : List Item)
    → All IsStorableItem items
    → All (HasDefault b) items
    → (xs : List PosixAce) × (list_sort.sort posix_ace_lt items ≡ ok (map ace xs))
      × All IsStorable xs
      × All (λ a. a.default_ ≡ b) xs
      × IsStableSort item_key items (map ace xs)
sorted_entries list_sort b items h d =
    let (zs, sorts, stable) =
      list_sort.sort_by posix_ace_lt item_key items (ComparesBy-item_key items h) in
    let (xs, e, k, f) =
      entries_of b zs (All-perm IsStorableItem stable.rearranged h)
        (All-perm (HasDefault b) stable.rearranged d) in
    (xs, sorts ∙ ap ok e, k, f, subst (IsStableSort item_key items) e stable)

-- The default blob of some sorted entries, and what its reader returns.
abbrev default_blob : List PosixAce → Option (List ℕ)
default_blob [] = none
default_blob (a ∷ as') = some (blob_of (a ∷ as'))

default_bytes-blob :
    (xs : List PosixAce)
    → All IsStorable xs
    → default_bytes_or_none (map ace xs) ≡ ok (default_blob xs)
unfolding default_bytes_or_none
default_bytes-blob [] h = refl
default_bytes-blob (a ∷ xs) h = rw (encode_posix_aces-blob_of (a ∷ xs) h)

get_default_aces-blob :
    (access : List ℕ) (xs : List PosixAce)
    → All IsStorable xs
    → All (λ a. a.default_ ≡ true) xs
    → get_default_aces (posix_acl_init access (default_blob xs)) ≡ ok xs
unfolding get_default_aces posix_acl_init
get_default_aces-blob access [] h d = refl
get_default_aces-blob access (a ∷ xs) h d = parse_posix_aces-blob_of (a ∷ xs) true h d

pub get_aces-blob :
    (default_data : Option (List ℕ)) (xs : List PosixAce)
    → All IsStorable xs
    → All (λ a. a.default_ ≡ false) xs
    → get_aces (posix_acl_init (blob_of xs) default_data) ≡ ok xs
unfolding get_aces posix_acl_init
get_aces-blob default_data xs h d = parse_posix_aces-blob_of xs false h d

-- Reading back an ACL made of entries that fit gives its access entries and its default entries,
-- each list stably sorted by tag and id.
pub read-from_aces :
    (list_sort : ListSort Item) (items : List Item)
    → All IsStorableItem items
    → (acl : PosixAcl) × (xs : List PosixAce) × (ys : List PosixAce) × (from_aces list_sort items
        ≡ ok acl)
      × (get_aces acl ≡ ok xs)
      × (get_default_aces acl ≡ ok ys)
      × IsStableSort item_key (access_of items) (map ace xs)
      × IsStableSort item_key (default_of items) (map ace ys)
unfolding from_aces
read-from_aces list_sort items h =
    let (xs, sx, kx, fx, stx) =
      sorted_entries list_sort false (access_of items)
        (All-filter IsStorableItem (λ i. not (is_default i)) items h)
        (access_of-HasDefault items h) in
    let (ys, sy, ky, fy, sty) =
      sorted_entries list_sort true (default_of items)
        (All-filter IsStorableItem is_default items h) (default_of-HasDefault items h) in
    (
      posix_acl_init (blob_of xs) (default_blob ys),
      xs,
      ys,
      rw (
        split_aces-filter items h,
        sx,
        sy,
        encode_posix_aces-blob_of xs kx,
        default_bytes-blob ys ky,
      ),
      get_aces-blob (default_blob ys) xs kx fx,
      get_default_aces-blob (blob_of xs) ys ky fy,
      stx,
      sty,
    )
