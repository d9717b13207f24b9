-- ===== src/Amp.antt =====
-- common/amp: data as paths of URLs, and as HTML that an AMP cache lets through.
-- encoding/base64 is a pair of functions, with what its documentation says of them as laws.
pub mod Cache
pub mod Path
pub mod Armor
pub mod Decoder
use snowflake.Common.{
  ℕ, zero, suc, Option, some, ◌≡◌, refl, Bool, true, List, [], ◌∷◌, ◌++◌, ◌&&◌, ◌||◌, ◌==◌, take,
  drop, arith,
}
use snowflake.Common.Bytes.{Bytes}
use snowflake.Common.Hex.{AreBytes}

-- An encoding of encoding/base64.
pub record Encoding : Type 0 where
  pub encode : Bytes → Bytes
  pub decode : Bytes → Option Bytes

abbrev pub is_ascii_whitespace : ℕ → Bool
is_ascii_whitespace b = b == 9 || (b == 10 || (b == 12 || (b == 13 || b == 32)))

abbrev pub all : (ℕ → Bool) → Bytes → Bool
all f [] = true
all f (b ∷ bs) = f b && all f bs

-- Bytes are read as they were written, and the text has bytes of the alphabet only.
pub record IsEncoding (alphabet : ℕ → Bool) (e : Encoding) : Type 0 where
  pub inverse : (d : Bytes) → AreBytes d → e.decode (e.encode d) ≡ some d
  pub letters : (d : Bytes) → all alphabet (e.encode d) ≡ true

pub all-append :
    (f : ℕ → Bool) (xs ys : Bytes) → all f xs ≡ true → all f ys ≡ true → all f (xs ++ ys) ≡ true
all-append f [] ys h k = k
all-append f (x ∷ xs) ys h k = ground (arith, all-append f xs ys)

pub all-take : (f : ℕ → Bool) (n : ℕ) (xs : Bytes) → all f xs ≡ true → all f (take n xs) ≡ true
all-take f zero xs h = refl
all-take f (suc n) [] h = refl
all-take f (suc n) (x ∷ xs) h = ground (arith, all-take f n xs)

pub all-drop : (f : ℕ → Bool) (n : ℕ) (xs : Bytes) → all f xs ≡ true → all f (drop n xs) ≡ true
all-drop f zero xs h = h
all-drop f (suc n) [] h = refl
all-drop f (suc n) (x ∷ xs) h = all-drop f n xs (ground arith)

pub all-front : (f : ℕ → Bool) (xs ys : Bytes) → all f (xs ++ ys) ≡ true → all f xs ≡ true
all-front f [] ys h = refl
all-front f (x ∷ xs) ys h = ground (arith, all-front f xs ys)

pub all-back : (f : ℕ → Bool) (xs ys : Bytes) → all f (xs ++ ys) ≡ true → all f ys ≡ true
all-back f [] ys h = h
all-back f (x ∷ xs) ys h = all-back f xs ys (ground arith)
