-- ===== src/Access/Creds.antt =====
-- src/cext/os/acl_check.c: `CredEntry`, and the inputs of check_path_access as C arrays.
use truenas_pyos.Prelude.{ℕ, ◌^◌, ◌-◌, Option, none, some, List, [], ◌∷◌, map, String, ltb, ◌||◌}
use truenas_pyos.Prelude.Int.{pos}
use truenas_pyos.Py.{
  PyValue, int, Result, ok, raise, value_error, type_error, no_creds, id_out_of_range,
  as_unsigned_long, raise_if, ◌>>=◌, ◌>>◌,
}

abbrev pub uint32_max : ℕ
uint32_max = 2 ^ 32 - 1

-- The object that a caller passes as id_name: a `str`, or something else.
pub data IdName : Type 0 where
  str : String → IdName
  not_str : IdName

-- PySequence_Fast on an argument: its items, or `none` where it is no sequence.
unfoldable pub sequence_fast {ℓ} : {A : Type ℓ} → Option (List A) → Result (List A)
sequence_fast none = raise type_error
sequence_fast (some xs) = ok xs

-- The four fields of a `truenas_os.CredEntry`. The struct sequence can also be made by its own
-- constructor, so the fields are what the caller put there.
pub record CredEntry : Type 0 where
  pub id_name : IdName
  pub uid : PyValue
  pub gid : PyValue
  pub groups : Option (List PyValue)

-- One group id: an `unsigned long` that fits in 32 bits.
unfoldable pub group_id : PyValue → Result ℕ
unfolding as_unsigned_long
group_id v = do
  g ← as_unsigned_long v
  raise_if (ltb uint32_max g) (value_error id_out_of_range)
  ok g

-- The loop over the groups, in do_create_cred_entry and in parse_groups.
unfoldable pub group_ids : List PyValue → Result (List ℕ)
unfolding group_id
group_ids [] = ok []
group_ids (v ∷ vs) = do g ← group_id v; rest ← group_ids vs; ok (g ∷ rest)

-- do_create_cred_entry
unfoldable pub do_create_cred_entry : IdName → ℕ → ℕ → Option (List PyValue) → Result CredEntry
unfolding group_ids sequence_fast
do_create_cred_entry not_str uid gid groups = raise type_error
do_create_cred_entry (str name) uid gid groups = do
  raise_if (ltb uint32_max uid) (value_error id_out_of_range)
  raise_if (ltb uint32_max gid) (value_error id_out_of_range)
  fast ← sequence_fast groups
  gs ← group_ids fast
  ok (record {
    id_name = str name;
    uid = int (pos uid);
    gid = int (pos gid);
    groups = some (map (λ g. int (pos g)) gs);
  })

-- struct cred_arr
pub record Cred : Type 0 where
  pub id_name : IdName
  pub uid : ℕ
  pub gid : ℕ
  pub groups : List ℕ

-- An item of the creds argument: a `CredEntry`, or something else.
pub data CredItem : Type 0 where
  cred_entry : CredEntry → CredItem
  not_cred : CredItem

-- parse_groups
unfoldable pub parse_groups : Option (List PyValue) → Result (List ℕ)
unfolding group_ids sequence_fast
parse_groups groups = sequence_fast groups >>= group_ids

-- The body of the loop of parse_creds.
unfoldable pub parse_cred : CredItem → Result Cred
unfolding as_unsigned_long parse_groups
parse_cred not_cred = raise type_error
parse_cred (cred_entry e) = do
  uid ← as_unsigned_long e.uid
  gid ← as_unsigned_long e.gid
  raise_if (ltb uint32_max uid || ltb uint32_max gid) (value_error id_out_of_range)
  gs ← parse_groups e.groups
  ok (record { id_name = e.id_name; uid = uid; gid = gid; groups = gs })

unfoldable pub parse_creds_loop : List CredItem → Result (List Cred)
unfolding parse_cred
parse_creds_loop [] = ok []
parse_creds_loop (item ∷ items) = do
  c ← parse_cred item
  rest ← parse_creds_loop items
  ok (c ∷ rest)

-- parse_creds
unfoldable pub parse_creds : Option (List CredItem) → Result (List Cred)
unfolding parse_creds_loop sequence_fast
parse_creds seq = sequence_fast seq >>= of_items
  where
    of_items : List CredItem → Result (List Cred)
    of_items [] = raise (value_error no_creds)
    of_items (item ∷ items) = parse_creds_loop (item ∷ items)

-- An item of the components argument: a bytes object, or something else.
pub data Component : Type 0 where
  bytes : List ℕ → Component
  not_bytes : Component

unfoldable pub parse_components_loop : List Component → Result (List (List ℕ))
parse_components_loop [] = ok []
parse_components_loop (not_bytes ∷ items) = raise type_error
parse_components_loop (bytes b ∷ items) = parse_components_loop items >>= λ rest. ok (b ∷ rest)

-- parse_components
unfoldable pub parse_components : Option (List Component) → Result (List (List ℕ))
unfolding parse_components_loop sequence_fast
parse_components seq = sequence_fast seq >>= parse_components_loop
