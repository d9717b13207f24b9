-- ===== src/NameMatcher/Superset.antt =====
-- IsSupersetOf against IsMember, and what the rules of NewNameMatcher accept.
use mathlib.Core.List.{append_assoc}
use snowflake.Common.{ℕ, length, ◌≡◌, ◌≢◌, ◌↔◌, ◌++◌, ◌∷◌, [], ap, sym, ◌∙◌, true, arith}
use snowflake.Common.Bytes.{
  Bytes, eqb→eq, eqb_refl, has_suffix, has_suffix-append, append-has_suffix,
}
use snowflake.NameMatcher.{NameMatcher, is_superset_of, is_member}

has_suffix_trans :
    (a b c : Bytes) → has_suffix b a ≡ true → has_suffix c b ≡ true → has_suffix c a ≡ true
has_suffix_trans a b c h k =
    let (p, e) = append-has_suffix b a h in
    let (q, e') = append-has_suffix c b k in
    let whole : c ≡ (q ++ p) ++ a = e' ∙ ap (◌++◌ q) e ∙ sym (append_assoc q p a) in
    rw whole (has_suffix-append (q ++ p) a)

superset_sound :
    (m n : NameMatcher) (s : Bytes)
    → is_superset_of m n ≡ true
    → is_member n s ≡ true
    → is_member m s ≡ true
unfolding is_superset_of is_member
superset_sound m n s h k = ground (
  arith,
  eqb→eq m.suffix n.suffix,
  eqb→eq s n.suffix,
  eqb_refl s,
  has_suffix_trans m.suffix n.suffix s,
)

cons-ne_self : (x : ℕ) (xs : Bytes) → x ∷ xs ≢ xs
cons-ne_self x xs h = omega (arith, ap length h)

superset_complete :
    (m n : NameMatcher)
    → ((s : Bytes) → is_member n s ≡ true → is_member m s ≡ true)
    → is_superset_of m n ≡ true
unfolding is_superset_of is_member
superset_complete m n all = ground (
  arith,
  all n.suffix,
  all (0 ∷ n.suffix),
  eqb→eq n.suffix m.suffix,
  eqb→eq (0 ∷ n.suffix) m.suffix,
  eqb_refl n.suffix,
  cons-ne_self 0 n.suffix,
  has_suffix-append [] n.suffix,
  has_suffix-append (0 ∷ []) n.suffix,
)

-- `is_superset_of m n` is true exactly when every name that `n` accepts is accepted by `m`.
pub superset_iff :
    (m n : NameMatcher)
    → (is_superset_of m n ≡ true) ↔ ((s : Bytes) → is_member n s ≡ true → is_member m s ≡ true)
superset_iff m n = (λ h s k. superset_sound m n s h k, superset_complete m n)
