-- ===== src/Common/Text.antt =====
-- Strings as keys and values: the equality test and its law, and their bytes.
use Prim.Native.Char.{code}
use Prim.Native.Nat.{ℕ, ◌+◌, ◌/◌, ◌%◌}
use Prim.Native.String.{String}
use mathlib.Core.Path.{◌≡◌}
use mathlib.Core.Logic.{◌↔◌}
use mathlib.Core.Bool.{Bool, true}
use text.Mathlib.Text.{◌==◌ as eq_text}
use text.Mathlib.TextEquality.{eq_iff}
use mathlib.Core.List.{[], ◌∷◌, ◌++◌}
use snowflake.Common.Eq.{Eq}
use snowflake.Common.Tests.{ltb, if◌then◌else◌}
use snowflake.Common.Bytes.{Bytes, eqb, eqb→eq, eqb_refl}

abbrev pub str_eq : String → String → Bool
str_eq s t = eq_text s t

pub str_eq_iff : (s t : String) → (str_eq s t ≡ true) ↔ (s ≡ t)
str_eq_iff s t = eq_iff s t

instance abbrev pub string_eq : Eq String
string_eq = record { beq = str_eq; beq_iff = str_eq_iff }

instance abbrev pub bytes_eq : Eq Bytes
bytes_eq = record { beq = eqb; beq_iff = λ xs ys. (eqb→eq xs ys, λ e. rw e (eqb_refl ys)) }

-- The bytes of a code point in UTF-8.
unfoldable pub utf8_rune : ℕ → Bytes
utf8_rune c =
    if ltb c 0x80
    then c ∷ []
    else (if ltb c 0x800
        then (0xC0 + c / 0x40) ∷ (0x80 + c % 0x40) ∷ []
        else (if ltb c 0x10000
            then (0xE0 + c / 0x1000) ∷ (0x80 + c / 0x40 % 0x40) ∷ (0x80 + c % 0x40) ∷ []
            else (0xF0 + c / 0x40000)
              ∷ (0x80 + c / 0x1000 % 0x40)
              ∷ (0x80 + c / 0x40 % 0x40)
              ∷ (0x80 + c % 0x40)
              ∷ []))

-- []byte(s)
unfoldable pub utf8 : String → Bytes
unfolding utf8_rune
utf8 String.[] = []
utf8 (String.◌∷◌ c s) = utf8_rune (code c) ++ utf8 s
