-- ===== src/Py/SortLists.antt =====
-- Lemmas on lists that a sort rearranges: keys of two parts, reversal, and images.
use mathlib.Core.List.{Permᴰ}
use native.Mathlib.Nat.{mul-le-mul_right, suc-mul}
use truenas_pyos.Prelude.{
  ℕ, suc, ◌+◌, ◌*◌, ◌≤◌, ◌<◌, ◌≡◌, ◌⊎◌, inl, inr, refl, ap, List, [], ◌∷◌, ◌++◌, map, ltb, ◌==◌,
  if◌then◌else◌, All, All-append, arith,
}

-- Numbers a * n + p with p below n are ordered by a, and by p where the a's are equal.
lex_lt : (a b n p q : ℕ) → p < n → a < b → a * n + p < b * n + q
lex_lt a b n p q fits h =
    let times : suc a * n ≤ b * n = mul-le-mul_right n h in
    let step : suc a * n ≡ a * n + n = suc-mul a n in omega arith

compare_cases : (a b : ℕ) → (a < b) ⊎ ((a ≡ b) ⊎ (b < a))
compare_cases a b = omega arith

pub ltb-lex :
    (a b n p q : ℕ)
    → p < n
    → q < n
    → ltb (a * n + p) (b * n + q) ≡ (if a == b then ltb p q else ltb a b)
ltb-lex a b n p q hp hq = elim (compare_cases a b) [
  | inl lt ↦ let far = lex_lt a b n p q hp lt in ground arith
  | inr (inl e) ↦ rw e (ground arith)
  | inr (inr gt) ↦ let far = lex_lt b a n q p hq gt in ground arith
]

pub lex_le : (a b n p q : ℕ) → p < n → q < n → a * n + p ≤ b * n + q → (a < b) ⊎ ((a ≡ b) × p ≤ q)
lex_le a b n p q hp hq h = elim (compare_cases a b) [
  | inl lt ↦ inl lt
  | inr (inl e) ↦ let same : a * n ≡ b * n = ap (λ x. x * n) e in inr (e, omega arith)
  | inr (inr gt) ↦ let far = lex_lt b a n q p hq gt in absurd (omega arith)
]

module _ {A : Type 0} where
  abbrev pub Pairwise : (A → A → Type 0) → List A → Type 0
  Pairwise R [] = Unit
  Pairwise R (x ∷ xs) = All (R x) xs × Pairwise R xs

  pub Pairwise-append :
      (R : A → A → Type 0) (xs ys : List A)
      → Pairwise R xs
      → Pairwise R ys
      → All (λ x. All (R x) ys) xs
      → Pairwise R (xs ++ ys)
  Pairwise-append R [] ys h k m = k
  Pairwise-append R (x ∷ xs) ys h k m =
      (All-append (R x) xs ys h.0 m.0, Pairwise-append R xs ys h.1 k m.1)

module _ {A B : Type 0} (f : A → B) where
  pub Perm-map_inv :
      {xs ys : List B}
      → Permᴰ xs ys
      → (ts : List A) → xs ≡ map f ts
      → (us : List A) × Permᴰ ts us × (ys ≡ map f us)
  Perm-map_inv Permᴰ.nil [] q = ([], Permᴰ.nil, refl)
  Perm-map_inv Permᴰ.nil (t ∷ ts) q = cc
  Perm-map_inv (Permᴰ.cons e p) [] q = cc
  Perm-map_inv (Permᴰ.cons e p) (t ∷ ts) q =
      let (us, r, s) = Perm-map_inv p ts cc in (t ∷ us, Permᴰ.cons refl r, cc)
  Perm-map_inv (Permᴰ.swap e g) [] q = cc
  Perm-map_inv (Permᴰ.swap e g) (t ∷ []) q = cc
  Perm-map_inv (Permᴰ.swap e g) (t ∷ u ∷ ts) q = (u ∷ t ∷ ts, Permᴰ.swap refl refl, cc)
  Perm-map_inv (Permᴰ.trans p r) ts q =
      let (us, p', s) = Perm-map_inv p ts q in
      let (vs, r', t) = Perm-map_inv r us s in (vs, Permᴰ.trans p' r', t)

  pub All-map : (P : B → Type 0) (xs : List A) → All (λ x. P (f x)) xs → All P (map f xs)
  All-map P [] h = tt
  All-map P (x ∷ xs) h = (h.0, All-map P xs h.1)

  pub All-map_inv : (P : B → Type 0) (xs : List A) → All P (map f xs) → All (λ x. P (f x)) xs
  All-map_inv P [] h = tt
  All-map_inv P (x ∷ xs) h = (h.0, All-map_inv P xs h.1)

  pub Perm-map : {xs ys : List A} → Permᴰ xs ys → Permᴰ (map f xs) (map f ys)
  Perm-map Permᴰ.nil = Permᴰ.nil
  Perm-map (Permᴰ.cons e p) = Permᴰ.cons (ap f e) (Perm-map p)
  Perm-map (Permᴰ.swap e g) = Permᴰ.swap (ap f e) (ap f g)
  Perm-map (Permᴰ.trans p q) = Permᴰ.trans (Perm-map p) (Perm-map q)

pub All-both :
    {A : Type 0} (P Q : A → Type 0) (xs : List A) → All P xs → All Q xs → All (λ x. P x × Q x) xs
All-both P Q [] h k = tt
All-both P Q (x ∷ xs) h k = ((h.0, k.0), All-both P Q xs h.1 k.1)
