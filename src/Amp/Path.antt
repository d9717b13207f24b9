-- ===== src/Amp/Path.antt =====
-- common/amp/path.go: data in the path of a URL, behind a version and a random part.
pub mod Tests
use snowflake.Common.{
  ℕ, not, Bool, true, false, Option, none, some, List, [], ◌∷◌, ◌++◌, ◌≡◌, refl, ◌==◌, ◌&&◌,
  if◌then◌else◌, arith, Bool-cases, inl, inr,
}
use snowflake.Common.Bytes.{Bytes}
use snowflake.Common.Hex.{AreBytes}
use snowflake.Common.Result.{Result, ok, err, from_option, ◌>>=◌}
use snowflake.Amp.{Encoding, IsEncoding, all}

pub data PathError : Type 0 where
  missing_format missing_data bad_base64 : PathError
  unknown_format : ℕ → PathError

-- `cache_breaker` is what rand.Read has filled in.
unfoldable pub encode_path : Encoding → (cache_breaker data' : Bytes) → Bytes
encode_path b64 cache_breaker data' = (b'0' ∷ b64.encode cache_breaker) ++ b'/' ∷ b64.encode data'

-- rest[i+1:] for i = strings.LastIndexByte(rest, '/'), or `none` for -1.
unfoldable pub behind_last_slash : Bytes → Option Bytes
behind_last_slash [] = none
behind_last_slash (c ∷ s) =
    let later = behind_last_slash s in
    elim later [ some t ↦ some t | none ↦ if c == b'/' then some s else none ]

unfoldable pub decode_path : Encoding → Bytes → Result PathError Bytes
unfolding behind_last_slash
decode_path b64 [] = err missing_format
decode_path b64 (version ∷ rest) = elim (version == b'0') [
  | true ↦ from_option (behind_last_slash rest) missing_data >>= λ s.
      from_option (b64.decode s) bad_base64
  | false ↦ err (unknown_format version)
]

abbrev pub no_slash : ℕ → Bool
no_slash c = not (c == b'/')

behind_none : (s : Bytes) → all no_slash s ≡ true → behind_last_slash s ≡ none
unfolding behind_last_slash
behind_none [] h = refl
behind_none (c ∷ s) h = ground (arith, behind_none s)

behind_last : (p s : Bytes) → all no_slash s ≡ true → behind_last_slash (p ++ b'/' ∷ s) ≡ some s
unfolding behind_last_slash
behind_last [] s h = rw (behind_none s h) refl
behind_last (c ∷ p) s h = rw (behind_last p s h) refl

-- DecodePath of what EncodePath has written is the data, whatever the random part; more so, behind the version any
-- directories may stand in front of the data, if base64 is read as it was written and writes no slash.
pub decode-encode_path :
    (b64 : Encoding)
    → IsEncoding no_slash b64
    → (cache_breaker directories data' : Bytes) → AreBytes data'
    → (decode_path b64 (encode_path b64 cache_breaker data') ≡ ok data')
      × (decode_path b64 (b'0' ∷ directories ++ b'/' ∷ b64.encode data') ≡ ok data')
unfolding decode_path encode_path
decode-encode_path b64 h cache_breaker directories data' bytes = (
  rw
      (
        behind_last (b64.encode cache_breaker) (b64.encode data') (h.letters data'),
        h.inverse data' bytes,
      )
      refl,
  rw (behind_last directories (b64.encode data') (h.letters data'), h.inverse data' bytes) refl,
)
