-- ===== src/Common/Array.antt =====
-- Lists as slices: exchanging two entries, and permutations measured by native lengths.
use mathlib.Core.Logic.{∥∥₁_elim}
use mathlib.Core.List.{Perm, Permᴰ, perm_middle, append-nil}
use mathlib.Core.List.Perm
use native.Mathlib.Nat.{ℕ_set}
use Prim.Native.Nat.{ℕ, zero, suc, ◌<◌}
use mathlib.Core.Path.{◌≡◌, refl, ap, ◌∙◌}
use mathlib.Core.List.{List, [], ◌∷◌, ◌++◌}
use mathlib.Core.Option.{Option, none, some}
use native.Mathlib.Omega.{arith}
use snowflake.Common.Tests.{◌==◌, if◌then◌else◌}
use snowflake.Common.Lists.{length, get_elem?, get_or, set, take, length-set}

module _ {A : Type 0} where
  -- `a[i], a[j] = a[j], a[i]`; `none` is a panic on an index out of range.
  unfoldable pub swap? : List A → ℕ → ℕ → Option (List A)
  swap? xs i j = elim (get_elem? xs i) [
    | none ↦ none
    | some x ↦ elim (get_elem? xs j) [ none ↦ none | some y ↦ some (set (set xs i y) j x) ]
  ]

  pub get_elem?-get_or :
      (d : A) (xs : List A) (i : ℕ) → i < length xs → get_elem? xs i ≡ some (get_or xs i d)
  get_elem?-get_or d [] i h = absurd (omega arith)
  get_elem?-get_or d (x ∷ xs) zero h = refl
  get_elem?-get_or d (x ∷ xs) (suc i) h = get_elem?-get_or d xs i (omega arith)

  pub get_or-set :
      (d : A) (xs : List A) (i j : ℕ) (v : A)
      → i < length xs
      → get_or (set xs i v) j d ≡ (if i == j then v else get_or xs j d)
  get_or-set d [] i j v h = absurd (omega arith)
  get_or-set d (x ∷ xs) zero zero v h = refl
  get_or-set d (x ∷ xs) zero (suc j) v h = ground arith
  get_or-set d (x ∷ xs) (suc i) zero v h = ground arith
  get_or-set d (x ∷ xs) (suc i) (suc j) v h = ground (arith, get_or-set d xs i j v)

  -- The entries behind a swap of indices in range.
  abbrev pub exchange : A → List A → ℕ → ℕ → List A
  exchange d xs i j = set (set xs i (get_or xs j d)) j (get_or xs i d)

  pub swap?-exchange :
      (d : A) (xs : List A) (i j : ℕ)
      → i < length xs
      → j < length xs
      → swap? xs i j ≡ some (exchange d xs i j)
  unfolding swap?
  swap?-exchange d xs i j h k = ground (arith, get_elem?-get_or d xs i h, get_elem?-get_or d xs j k)

  pub length-exchange : (d : A) (xs : List A) (i j : ℕ) → length (exchange d xs i j) ≡ length xs
  length-exchange d xs i j = length-set _ j _ ∙ length-set xs i _

  pub get_or-exchange :
      (d : A) (xs : List A) (i j k : ℕ)
      → i < length xs
      → j < length xs
      → get_or (exchange d xs i j) k d
        ≡ (if j == k then get_or xs i d else if i == k then get_or xs j d else get_or xs k d)
  get_or-exchange d xs i j k h h' =
      let size = length-set xs i (get_or xs j d) in
      ground (
        arith,
        get_or-set d (set xs i (get_or xs j d)) j k (get_or xs i d) (omega (arith, size)),
        get_or-set d xs i k (get_or xs j d),
      )

  -- Writing v at i trades the entry there for v.
  trade :
      (d : A) (xs : List A) (i : ℕ) (v : A)
      → i < length xs
      → Perm (get_or xs i d ∷ set xs i v) (v ∷ xs)
  trade d [] i v h = absurd (omega arith)
  trade d (x ∷ xs) zero v h = Perm.swap v x xs
  trade d (x ∷ xs) (suc i) v h =
      Perm.trans (Perm.swap x (get_or xs i d) (set xs i v))
        (Perm.trans (Perm.cons x (trade d xs i v (omega arith))) (Perm.swap v x xs))

  pub exchange-perm :
      (d : A) (xs : List A) (i j : ℕ) → i < length xs → j < length xs → Perm (exchange d xs i j) xs
  exchange-perm d xs i j h k =
      let ys = set xs i (get_or xs j d) in
      let size = length-set xs i (get_or xs j d) in
      let same : get_or ys j d ≡ get_or xs j d =
        ground (arith, get_or-set d xs i j (get_or xs j d)) in
      let t : Perm (get_or xs j d ∷ set ys j (get_or xs i d)) (get_or xs i d ∷ ys) =
        rw same at (trade d ys j (get_or xs i d) (omega (arith, size))) in
      Perm.cons_inv (Perm.trans t (trade d xs i (get_or xs j d) h))

  Permᴰ-length : {xs ys : List A} → Permᴰ xs ys → length xs ≡ length ys
  Permᴰ-length Permᴰ.nil = refl
  Permᴰ-length (Permᴰ.cons x p) = ap suc (Permᴰ-length p)
  Permᴰ-length (Permᴰ.swap x y) = refl
  Permᴰ-length (Permᴰ.trans p q) = Permᴰ-length p ∙ Permᴰ-length q

  pub length-perm : {xs ys : List A} → Perm xs ys → length xs ≡ length ys
  length-perm p = ∥∥₁_elim p (ℕ_set _ _) Permᴰ-length

  -- The last entry, moved to the front.
  pub last-perm :
      (d : A) (xs : List A) (n : ℕ) → length xs ≡ suc n → Perm (get_or xs n d ∷ take n xs) xs
  last-perm d (x ∷ []) zero h = Perm.refl (x ∷ [])
  last-perm d (x ∷ y ∷ xs) (suc n) h =
      Perm.trans (Perm.swap x (get_or (y ∷ xs) n d) (take n (y ∷ xs)))
        (Perm.cons x (last-perm d (y ∷ xs) n (omega arith)))
  last-perm d [] n h = absurd (omega arith)
  last-perm d (x ∷ []) (suc n) h = absurd (omega arith)
  last-perm d (x ∷ y ∷ xs) zero h = absurd (omega arith)

  pub get_or-take :
      (d : A) (n : ℕ) (xs : List A) (i : ℕ) → i < n → get_or (take n xs) i d ≡ get_or xs i d
  get_or-take d zero xs i h = absurd (omega arith)
  get_or-take d (suc n) [] i h = refl
  get_or-take d (suc n) (x ∷ xs) zero h = refl
  get_or-take d (suc n) (x ∷ xs) (suc i) h = get_or-take d n xs i (omega arith)

  pub get_or-append :
      (d : A) (xs ys : List A) (i : ℕ) → i < length xs → get_or (xs ++ ys) i d ≡ get_or xs i d
  get_or-append d [] ys i h = absurd (omega arith)
  get_or-append d (x ∷ xs) ys zero h = refl
  get_or-append d (x ∷ xs) ys (suc i) h = get_or-append d xs ys i (omega arith)

  pub push-perm : (xs : List A) (x : A) → Perm (xs ++ x ∷ []) (x ∷ xs)
  push-perm xs x = rw (append-nil xs) at (perm_middle {a = x} xs [])

  pub get_or_last : (d : A) (xs : List A) (x : A) → get_or (xs ++ x ∷ []) (length xs) d ≡ x
  get_or_last d [] x = refl
  get_or_last d (y ∷ xs) x = get_or_last d xs x
