-- ===== src/Amp/Cache/Prefix.antt =====
-- What the prefix of a cache domain keeps of the domain of the publisher, and how long it is.
use snowflake.Common.{
  ℕ, Bool, true, false, not, [], ◌∷◌, length, ◌==◌, ◌&&◌, ◌||◌, ◌≤◌, ◌≡◌, refl, arith, ap, ◌∙◌,
  if◌then◌else◌, leb, some_or_none, inl, inr, Bool-cases,
}
use snowflake.Common.Bytes.{Bytes}
use snowflake.Amp.Cache.{
  Libraries, replace_all, replaced, domain_prefix_basic, domain_prefix_fallback, domain_prefix,
}

-- Two hyphens are one, and one is a dot.
abbrev pub original : Bytes → Bytes
original [] = []
original (c ∷ []) = (if c == b'-' then b'.' else c) ∷ []
original (c ∷ d ∷ s) =
    let short = original s in
    let long = original (d ∷ s) in
    if c == b'-' && d == b'-' then b'-' ∷ short else (if c == b'-' then b'.' else c) ∷ long

abbrev starts_plain : Bytes → Bool
starts_plain [] = true
starts_plain (c ∷ s) = not (c == b'-' || c == b'.')

-- No dot is followed by a dot or a hyphen.
abbrev pub is_domain : Bytes → Bool
is_domain [] = true
is_domain (c ∷ s) = is_domain s && (not (c == b'.') || starts_plain s)

abbrev spread : Bytes → Bytes
spread [] = []
spread (c ∷ s) =
    if c == b'-'
    then b'-' ∷ b'-' ∷ spread s
    else (if c == b'.' then b'-' ∷ spread s else c ∷ spread s)

replaced-spread : (domain : Bytes) → replaced domain ≡ spread domain
unfolding replaced replace_all
replaced-spread [] = refl
replaced-spread (c ∷ s) = elim (Bool-cases (c == b'-')) [
  | inl e ↦ rw (replaced, replace_all, e) (ap (λ t. b'-' ∷ b'-' ∷ t) (replaced-spread s))
  | inr e ↦ elim (Bool-cases (c == b'.')) [
    | inl f ↦ rw (replaced, replace_all, e) (rw f (ap (λ t. b'-' ∷ t) (replaced-spread s)))
    | inr f ↦ rw (replaced, replace_all, e) (rw f (ap (λ t. c ∷ t) (replaced-spread s)))
  ]
]

abbrev no_hyphen : Bytes → Bool
no_hyphen [] = true
no_hyphen (c ∷ s) = not (c == b'-')

cons_eq : {b c : ℕ} {t s : Bytes} → b ≡ c → t ≡ s → b ∷ t ≡ c ∷ s
cons_eq p q = rw (p, q) refl

restore_dot : (t : Bytes) → no_hyphen t ≡ true → original (b'-' ∷ t) ≡ b'.' ∷ original t
restore_dot [] h = refl
restore_dot (d ∷ t) h = let e : (d == b'-') ≡ false = ground arith in rw e refl

restore_other : (c : ℕ) (t : Bytes) → (c == b'-') ≡ false → original (c ∷ t) ≡ c ∷ original t
restore_other c [] e = rw e refl
restore_other c (d ∷ t) e = rw e refl

spread_plain : (s : Bytes) → starts_plain s ≡ true → no_hyphen (spread s) ≡ true
spread_plain [] h = refl
spread_plain (c ∷ s) h =
    let e : (c == b'-') ≡ false = ground arith in
    let f : (c == b'.') ≡ false = ground arith in rw (e, f) (rw e refl)

original-spread : (domain : Bytes) → is_domain domain ≡ true → original (spread domain) ≡ domain
original-spread [] h = refl
original-spread (c ∷ s) h = elim (Bool-cases (c == b'-')) [
  | inl e ↦ rw e (cons_eq (ground arith) (original-spread s (ground arith)))
  | inr e ↦ elim (Bool-cases (c == b'.')) [
    | inl f ↦
        rw (e, f)
          (restore_dot (spread s) (spread_plain s (ground arith))
            ∙ cons_eq (ground arith) (original-spread s (ground arith)))
    | inr f ↦
        rw (e, f)
          (restore_other c (spread s) e ∙ ap (λ t. c ∷ t) (original-spread s (ground arith)))
  ]
]

-- Of a domain in which no dot is followed by a dot or a hyphen, steps 2 and 3 keep everything: two hyphens stand for a
-- hyphen, and one for a dot.
pub original-replaced :
    (domain : Bytes) → is_domain domain ≡ true → original (replaced domain) ≡ domain
original-replaced domain h = ap original (replaced-spread domain) ∙ original-spread domain h

module _ (lib : Libraries) (sum : (d : Bytes) → length (lib.base32_sum d) ≡ 52) where
  -- The prefix of every domain fits into a DNS label.
  pub domain_prefix_fits : (domain : Bytes) → length (domain_prefix lib domain) ≤ 63
  unfolding domain_prefix domain_prefix_fallback
  domain_prefix_fits domain = elim (some_or_none (domain_prefix_basic lib domain)) [
    | inl e ↦ rw (domain_prefix, e) (omega (arith, sum domain))
    | inr (prefix, e) ↦ elim (Bool-cases (leb (length prefix) 63)) [
      | inl f ↦ rw (domain_prefix, e, f) (ground arith)
      | inr f ↦ rw (domain_prefix, e, f) (omega (arith, sum domain))
    ]
  ]
