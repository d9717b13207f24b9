-- ===== src/Common/Members.antt =====
-- The members of a list, and their places.
use mathlib.Core.HLevel.{⊥_prop}
use mathlib.Core.List.{
  List, [], ◌∷◌, ◌++◌, Mem, not-mem-nil, eq-or-mem_of_mem-cons, mem-cons_self, mem-cons_of_mem,
}
use mathlib.Core.Logic.Or
use mathlib.Core.Path.{◌≡◌, sym}
use Prim.Native.Nat.{ℕ, zero, suc, ◌<◌}
use native.Mathlib.Omega.{arith}
use snowflake.Common.Lists.{length, get_or}

module _ {A : Type 0} (d : A) where
  -- What holds of every place that has x holds of a member x.
  pub Mem_place :
      {P : Type 0} (x : A) (xs : List A)
      → IsProp P
      → ((i : ℕ) → i < length xs → get_or xs i d ≡ x → P)
      → Mem x xs
      → P
  Mem_place x [] prop h m = absurd (not-mem-nil m)
  Mem_place x (y ∷ xs) prop h m =
      Or.elim prop (eq-or-mem_of_mem-cons m) (λ e. h 0 (omega arith) (sym e))
        (Mem_place x xs prop (λ i l. h (suc i) (omega arith)))

  pub not-Mem :
      (x : A) (xs : List A) → ((i : ℕ) → i < length xs → ¬ (get_or xs i d ≡ x)) → ¬ Mem x xs
  not-Mem x xs h m = Mem_place x xs ⊥_prop h m

  pub get_or-Mem : (xs : List A) (i : ℕ) → i < length xs → Mem (get_or xs i d) xs
  get_or-Mem [] i l = absurd (omega arith)
  get_or-Mem (x ∷ xs) zero l = mem-cons_self
  get_or-Mem (x ∷ xs) (suc i) l = mem-cons_of_mem x (get_or-Mem xs i (omega arith))

abbrev pub All : {A : Type 0} → (A → Type 0) → List A → Type 0
All P [] = Unit
All P (x ∷ xs) = P x × All P xs

pub All-append :
    {A : Type 0} (P : A → Type 0) (xs : List A) (x : A) → All P xs → P x → All P (xs ++ x ∷ [])
All-append P [] x all h = (h, tt)
All-append P (y ∷ ys) x (k, ks) h = (k, All-append P ys x ks h)

pub All-split :
    {A : Type 0} (P : A → Type 0) (xs : List A) (x : A) (ys : List A)
    → All P (xs ++ x ∷ ys)
    → All P xs × P x × All P ys
All-split P [] x ys (h, hs) = (tt, h, hs)
All-split P (z ∷ zs) x ys (h, hs) =
    let (before, now, after) = All-split P zs x ys hs in ((h, before), now, after)

pub All-join :
    {A : Type 0} (P : A → Type 0) (xs : List A) (x : A) (ys : List A)
    → All P xs
    → P x
    → All P ys
    → All P (xs ++ x ∷ ys)
All-join P [] x ys before now after = (now, after)
All-join P (z ∷ zs) x ys (h, before) now after = (h, All-join P zs x ys before now after)
