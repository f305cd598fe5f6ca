-- ===== src/Nfs4/RoundTrip.antt =====
-- Entries that the wire format can hold, and their way through `from_aces` and `aces`.
use truenas_pyos.Prelude.{
  ℕ, ◌+◌, ◌*◌, ◌%◌, ◌^◌, ◌<◌, ◌≡◌, refl, ap, sym, ◌∙◌, true, some, List, [], ◌∷◌, ◌++◌, ltb, length,
  map, All, arith, length-map, All-imp, lt→ltb,
}
use mathlib.Core.List.{append-nil}
use mathlib.Core.Path.{subst}
use truenas_pyos.Prelude.Int.{pos}
use truenas_pyos.Prelude.Bytes.{be32, read_be32-be32}
use truenas_pyos.Py.{int, ok, as_long, int_flag_call, load}
use truenas_pyos.Py.Sort.{ListSort, ComparesBy, IsStableSort, All-perm, length-perm}
use truenas_pyos.Nfs4.Acl.{
  Nfs4Acl, acl_flags_val, from_aces, get_aces, get_acl_flags, read_naces, slot_at,
}
use truenas_pyos.Nfs4.Types.{
  Item, Nfs4Ace, ace, nfs4_ace_lt, nfs4_ace_words, nfs4_hdr_words, other, sort_key,
}
use truenas_pyos.Nfs4.Wire.{
  IsWire, decode_aces-slots_of, encode_aces-slots_of, int_value, length-slots_of, slots_of,
}

-- The buffer of a list of entries: header words and slots.
abbrev pub blob_of : ℕ → List Nfs4Ace → List ℕ
blob_of flags xs = be32 flags ++ (be32 (length xs % 2 ^ 32) ++ slots_of xs)

pub length-blob_of :
    (flags : ℕ) (xs : List Nfs4Ace) → length (blob_of flags xs) ≡ 8 + length xs * 20
unfolding be32
length-blob_of flags xs = omega (arith, length-slots_of xs)

pub read_naces-blob_of :
    (flags : ℕ) (xs : List Nfs4Ace)
    → length xs < 2 ^ 32
    → read_naces (blob_of flags xs) ≡ ok (length xs)
unfolding be32
read_naces-blob_of flags xs fits =
    ap load (read_be32-be32 (length xs % 2 ^ 32) (slots_of xs) (omega arith)) ∙ ap ok (omega arith)

slot_at-blob_of : (flags : ℕ) (xs : List Nfs4Ace) → slot_at (blob_of flags xs) 0 ≡ slots_of xs ++ []
unfolding be32
slot_at-blob_of flags xs = rw append-nil

pub get_aces-blob_of :
    (flags : ℕ) (xs : List Nfs4Ace)
    → All IsWire xs
    → length xs < 2 ^ 32
    → get_aces (record { data_bytes = blob_of flags xs }) ≡ ok xs
unfolding get_aces
get_aces-blob_of flags xs h fits = ground (
  arith,
  length-blob_of flags xs,
  read_naces-blob_of flags xs fits,
  decode_aces-slots_of 0 (blob_of flags xs) [] xs h (slot_at-blob_of flags xs),
)

pub get_acl_flags-blob_of :
    (flags : ℕ) (xs : List Nfs4Ace)
    → flags < 2 ^ 32
    → get_acl_flags (record { data_bytes = blob_of flags xs }) ≡ ok (int (pos flags))
unfolding get_acl_flags int_flag_call
get_acl_flags-blob_of flags xs fits = ground (
  arith,
  length-blob_of flags xs,
  read_be32-be32 flags (be32 (length xs % 2 ^ 32) ++ slots_of xs) fits,
)

-- The order of `NFS4ACE` items as a number.
abbrev pub item_key : Item → ℕ
item_key (ace a) = sort_key (int_value a.ace_type) (int_value a.ace_flags)
item_key other = 0

abbrev pub IsWireItem : Item → Type 0
IsWireItem (ace a) = IsWire a
IsWireItem other = ⊥

lt-item_key :
    (x y : Item)
    → IsWireItem x
    → IsWireItem y
    → nfs4_ace_lt x y ≡ ok (ltb (item_key x) (item_key y))
unfolding nfs4_ace_lt as_long
lt-item_key (ace a) (ace b) h k = rw (h.type_is, h.flags_is, k.type_is, k.flags_is) (ground arith)
lt-item_key (ace a) other h k = absurd k
lt-item_key other y h k = absurd h

-- Items that are wire entries are entries.
IsWireItem-ace :
    (items : List Item)
    → All IsWireItem items
    → (xs : List Nfs4Ace) × (items ≡ map ace xs) × All IsWire xs
IsWireItem-ace [] h = ([], refl, tt)
IsWireItem-ace (ace a ∷ items) h =
    let (xs, e, k) = IsWireItem-ace items h.1 in (a ∷ xs, ap (λ l. ace a ∷ l) e, (h.0, k))
IsWireItem-ace (other ∷ items) h = absurd h.0

ComparesBy-item_key :
    (items : List Item) → All IsWireItem items → ComparesBy nfs4_ace_lt item_key items
ComparesBy-item_key items h =
    All-imp IsWireItem _ items
      (λ x hx. All-imp IsWireItem _ items (λ y hy. lt-item_key x y hx hy) h) h

from_aces-sorted :
    (list_sort : ListSort Item) (items : List Item) (xs : List Nfs4Ace) (acl_flags : ℕ)
    → All IsWire xs
    → acl_flags < 2 ^ 32
    → list_sort.sort nfs4_ace_lt items ≡ ok (map ace xs)
    → from_aces list_sort items (some (int (pos acl_flags)))
      ≡ ok (record { data_bytes = blob_of acl_flags xs })
unfolding from_aces acl_flags_val as_long
from_aces-sorted list_sort items xs acl_flags wire flags sorts =
    let len : length (map ace xs) ≡ length xs = length-map xs ace in
    let small : ltb acl_flags (2 ^ 63) ≡ true = lt→ltb _ _ (omega arith) in
    let kept : acl_flags % 2 ^ 32 ≡ acl_flags = omega arith in
    rw (
      sorts,
      small,
      encode_aces-slots_of (nfs4_hdr_words + length (map ace xs) * nfs4_ace_words) 0 xs wire
          (omega arith),
      len,
      kept,
    )

-- Reading back an ACL made of entries that fit gives those entries, stably sorted into the canonical order.
pub get_aces-from_aces :
    (list_sort : ListSort Item) (items : List Item) (acl_flags : ℕ)
    → All IsWireItem items
    → length items < 2 ^ 32
    → acl_flags < 2 ^ 32
    → (acl : Nfs4Acl) × (xs : List Nfs4Ace) × (from_aces list_sort items
          (some (int (pos acl_flags)))
        ≡ ok acl)
      × (get_aces acl ≡ ok xs)
      × (get_acl_flags acl ≡ ok (int (pos acl_flags)))
      × IsStableSort item_key items (map ace xs)
get_aces-from_aces list_sort items acl_flags h count flags =
    let (ys, sorts, stable) =
      list_sort.sort_by nfs4_ace_lt item_key items (ComparesBy-item_key items h) in
    let (xs, e, wire) = IsWireItem-ace ys (All-perm IsWireItem stable.rearranged h) in
    let len : length xs ≡ length items =
      sym (length-map xs ace) ∙ sym (ap length e) ∙ sym (length-perm stable.rearranged) in
    (
      record { data_bytes = blob_of acl_flags xs },
      xs,
      from_aces-sorted list_sort items xs acl_flags wire flags (sorts ∙ ap ok e),
      get_aces-blob_of acl_flags xs wire (omega arith),
      get_acl_flags-blob_of acl_flags xs flags,
      subst (IsStableSort item_key items) e stable,
    )
