-- ===== src/Common/Bytes.antt =====
-- Byte strings: equality, and the functions of package strings that the sources call
-- (HasPrefix, HasSuffix, TrimPrefix, TrimSuffix, ReplaceAll of one byte, Split at one byte).
use Prim.Native.Char.{code}
use Prim.Native.String.{String}
use snowflake.Common.Tests.{◌==◌, leb, if◌then◌else◌}
use snowflake.Common.Lists.{length, drop, take, length-append, take-append-drop}
use Prim.Native.Nat.{ℕ, zero, suc, ◌-◌}
use mathlib.Core.Path.{◌≡◌, refl, sym, ap, ◌∙◌}
use mathlib.Core.Bool.{Bool, true, false, ◌&&◌}
use mathlib.Core.List.{List, [], ◌∷◌, ◌++◌}
use native.Mathlib.Omega.{arith}

abbrev pub Bytes : Type 0
Bytes = List ℕ

-- The code points of a literal: its bytes, where it is ASCII.
abbrev pub codes : String → Bytes
codes String.[] = []
codes (String.◌∷◌ c s) = code c ∷ codes s

unfoldable pub eqb : Bytes → Bytes → Bool
eqb [] [] = true
eqb (x ∷ xs) (y ∷ ys) = x == y && eqb xs ys
eqb _ _ = false

pub eqb→eq : (xs ys : Bytes) → eqb xs ys ≡ true → xs ≡ ys
unfolding eqb
eqb→eq [] [] h = refl
eqb→eq (x ∷ xs) (y ∷ ys) h = ground (arith, eqb→eq xs ys)
eqb→eq [] (y ∷ ys) h = ground arith
eqb→eq (x ∷ xs) [] h = ground arith

pub eqb_refl : (xs : Bytes) → eqb xs xs ≡ true
unfolding eqb
eqb_refl [] = refl
eqb_refl (x ∷ xs) = ground (arith, eqb_refl xs)

-- strings.HasPrefix, HasSuffix, TrimPrefix and TrimSuffix.
unfoldable pub has_prefix : Bytes → Bytes → Bool
has_prefix s pre = leb (length pre) (length s) && eqb (take (length pre) s) pre

unfoldable pub has_suffix : Bytes → Bytes → Bool
has_suffix s suf = leb (length suf) (length s) && eqb (drop (length s - length suf) s) suf

unfoldable pub trim_prefix : Bytes → Bytes → Bytes
unfolding has_prefix
trim_prefix s pre = if has_prefix s pre then drop (length pre) s else s

unfoldable pub trim_suffix : Bytes → Bytes → Bytes
unfolding has_suffix
trim_suffix s suf = if has_suffix s suf then take (length s - length suf) s else s

pub drop-append : (n : ℕ) (xs ys : Bytes) → n ≡ length xs → drop n (xs ++ ys) ≡ ys
drop-append zero [] ys h = refl
drop-append (suc n) (x ∷ xs) ys h = drop-append n xs ys (omega arith)
drop-append zero (x ∷ xs) ys h = absurd (omega arith)
drop-append (suc n) [] ys h = absurd (omega arith)

pub take-append : (n : ℕ) (xs ys : Bytes) → n ≡ length xs → take n (xs ++ ys) ≡ xs
take-append zero [] ys h = refl
take-append (suc n) (x ∷ xs) ys h = rw (take-append n xs ys (omega arith))
take-append zero (x ∷ xs) ys h = absurd (omega arith)
take-append (suc n) [] ys h = absurd (omega arith)

pub has_suffix-append : (xs ys : Bytes) → has_suffix (xs ++ ys) ys ≡ true
unfolding has_suffix
has_suffix-append xs ys =
    let sum = length-append xs ys in
    let tail = drop-append (length (xs ++ ys) - length ys) xs ys (omega (arith, sum)) in
    rw tail (ground (arith, sum, eqb_refl ys))

-- A suffix is what stands behind some prefix.
pub append-has_suffix : (s suf : Bytes) → has_suffix s suf ≡ true → (p : Bytes) × (s ≡ p ++ suf)
unfolding has_suffix
append-has_suffix s suf h =
    let n = length s - length suf in
    let tail : drop n s ≡ suf = eqb→eq (drop n s) suf (ground arith) in
    (take n s, sym (take-append-drop n s) ∙ ap (◌++◌ (take n s)) tail)
