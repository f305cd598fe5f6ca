-- ===== src/Fhandle/HandleLaws.antt =====
-- src/cext/os/fhandle.c: a handle as bytes, and made from them again.
use truenas_pyos.Prelude.{
  ℕ, suc, ◌+◌, ◌-◌, ◌≤◌, ◌<◌, ◌≡◌, refl, ap, sym, ◌∙◌, Bool, false, some, List, [], ◌∷◌, ◌++◌,
  length, take, drop, arith, ltb_of_le, lt→ltb, length-take, length-append, ◌==◌,
}
use truenas_pyos.Prelude.Int.{ℤ}
use truenas_pyos.Prelude.Bytes.{read_le32}
use truenas_pyos.Py.{ok, raise, value_error, handle_too_large, ◌>>◌}
use truenas_pyos.Fhandle.Handle.{
  max_handle_sz, header_size, no_mount_id, Fhandle, HandleKernel, overlay, check_handle_bytes,
  do_fhandle_from_bytes, whole_struct, py_fhandle_bytes, py_fhandle_open,
}

-- A handle that is initialized, with `n` bytes of f_handle.
pub record IsHandle (h : Fhandle) (n : ℕ) : Type 0 where
  pub has_mount_id : (h.mount_id == no_mount_id) ≡ false
  pub has_header : read_le32 h.fhbuf ≡ some n
  pub fits : n ≤ max_handle_sz
  pub buffer_size : length h.fhbuf ≡ header_size + max_handle_sz

read_le32-take :
    (m : ℕ) (xs : List ℕ) → read_le32 (take (suc (suc (suc (suc m)))) xs) ≡ read_le32 xs
unfolding read_le32
read_le32-take m [] = refl
read_le32-take m (a ∷ []) = refl
read_le32-take m (a ∷ b ∷ []) = refl
read_le32-take m (a ∷ b ∷ c ∷ []) = refl
read_le32-take m (a ∷ b ∷ c ∷ d ∷ xs) = refl

read_le32-append : (xs ys : List ℕ) (n : ℕ) → read_le32 xs ≡ some n → read_le32 (xs ++ ys) ≡ some n
unfolding read_le32
read_le32-append [] ys n h = cc
read_le32-append (a ∷ []) ys n h = cc
read_le32-append (a ∷ b ∷ []) ys n h = cc
read_le32-append (a ∷ b ∷ c ∷ []) ys n h = cc
read_le32-append (a ∷ b ∷ c ∷ d ∷ xs) ys n h = h

take-append : (xs ys : List ℕ) → take (length xs) (xs ++ ys) ≡ xs
take-append [] ys = refl
take-append (x ∷ xs) ys = ap (λ l. x ∷ l) (take-append xs ys)

-- The bytes of the struct of a handle.
abbrev pub struct_of : Fhandle → ℕ → List ℕ
struct_of h n = take (header_size + n) h.fhbuf

module _ (h : Fhandle) (n : ℕ) (valid : IsHandle h n) where
  length-struct_of : length (struct_of h n) ≡ header_size + n
  length-struct_of =
      let bound = valid.fits in
      let whole = valid.buffer_size in length-take (header_size + n) h.fhbuf (omega arith)

  read_le32-struct_of : read_le32 (struct_of h n) ≡ some n
  read_le32-struct_of =
      let four : header_size + n ≡ suc (suc (suc (suc (4 + n)))) = omega arith in
      rw (four, read_le32-take (4 + n) h.fhbuf) valid.has_header

  whole_struct-IsHandle : whole_struct h ≡ ok (struct_of h n)
  unfolding whole_struct
  whole_struct-IsHandle =
      let bound = valid.fits in
      let whole = valid.buffer_size in
      rw (valid.has_header, ltb_of_le (length h.fhbuf) (header_size + n) (omega arith)) refl

-- What a handle made from the bytes gives again.
whole_struct-overlay :
    (h self : Fhandle) (n mount_id : ℕ) (unique : Bool)
    → IsHandle h n
    → whole_struct (record {
      mount_id = mount_id;
      unique_mount_id = unique;
      fhbuf = overlay (struct_of h n) self.fhbuf;
    })
      ≡ ok (struct_of h n)
unfolding whole_struct
whole_struct-overlay h self n mount_id unique valid =
    let bs = struct_of h n in
    let l = length-struct_of h n valid in
    let rest = drop (length bs) self.fhbuf in
    let total = length-append bs rest in
    rw
      (
        read_le32-append bs rest n (read_le32-struct_of h n valid),
        ltb_of_le (length (bs ++ rest)) (header_size + n) (omega arith),
      )
      (ap ok (ap (λ m. take m (bs ++ rest)) (sym l) ∙ take-append bs rest))

check_handle_bytes-struct_of :
    (h : Fhandle) (n : ℕ)
    → IsHandle h n
    → header_size + n ≤ max_handle_sz
    → check_handle_bytes (struct_of h n) ≡ ok tt
unfolding check_handle_bytes
check_handle_bytes-struct_of h n valid small =
    rw
      (
        length-struct_of h n valid,
        ltb_of_le (header_size + n) header_size (omega arith),
        ltb_of_le max_handle_sz (header_size + n) small,
        read_le32-struct_of h n valid,
        ltb_of_le (header_size + n - header_size) n (omega arith),
      )
      refl

-- The bytes of an initialized handle are its header and the bytes of f_handle. Made from them with its
-- mount id, where they are at most MAX_HANDLE_SZ with the header, another handle has the same bytes and
-- opens the same files with the same errors. A handle with more than 120 bytes of f_handle, which the
-- kernel may give, has bytes that are refused.
pub do_fhandle_from_bytes-py_fhandle_bytes :
    (h self : Fhandle) (n : ℕ)
    → IsHandle h n
    → (py_fhandle_bytes h ≡ ok (struct_of h n))
      × (header_size + n ≤ max_handle_sz
          → (h' : Fhandle) × (do_fhandle_from_bytes self
                (struct_of h n)
                h.mount_id
                h.unique_mount_id
              ≡ ok h')
            × (py_fhandle_bytes h' ≡ ok (struct_of h n))
            × ((k : HandleKernel)
                → (mount_fd flags : ℤ)
                → py_fhandle_open k h' mount_fd flags ≡ py_fhandle_open k h mount_fd flags))
      × (max_handle_sz < header_size + n
          → do_fhandle_from_bytes self (struct_of h n) h.mount_id h.unique_mount_id
            ≡ raise (value_error handle_too_large))
unfolding py_fhandle_bytes do_fhandle_from_bytes check_handle_bytes py_fhandle_open
do_fhandle_from_bytes-py_fhandle_bytes h self n valid =
    let bs = struct_of h n in
    let h' : Fhandle = record {
      mount_id = h.mount_id;
      unique_mount_id = h.unique_mount_id;
      fhbuf = overlay bs self.fhbuf;
    } in
    let again = whole_struct-overlay h self n h.mount_id h.unique_mount_id valid in
    let given = whole_struct-IsHandle h n valid in
    (
      rw (valid.has_mount_id, given) refl,
      λ small. (
        h',
        ap (λ r. r >> ok h') (check_handle_bytes-struct_of h n valid small),
        rw (valid.has_mount_id, again) refl,
        λ k mount_fd flags. rw (again, given) refl,
      ),
      λ large.
          rw
            (
              length-struct_of h n valid,
              ltb_of_le (header_size + n) header_size (omega arith),
              lt→ltb max_handle_sz (header_size + n) large,
            )
            refl,
    )
