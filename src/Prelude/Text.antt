-- ===== src/Prelude/Text.antt =====
-- Go strings as lists of bytes, with what the source uses of the language and of the packages
-- strings, unicode and unicode/utf8.
use Prim.Native.Nat.{ℕ, zero, suc, ◌+◌, ◌-◌, ◌*◌}
use Prim.Native.Char.{code}
use Prim.Native.String.{String}
use mathlib.Core.Path.{◌≡◌, refl, ap₂}
use mathlib.Core.Logic.{◌↔◌}
use mathlib.Core.Bool.{Bool, true, false, ◌&&◌, ◌||◌}
use mathlib.Core.List.{List, [], ◌∷◌, reverse}
use native.Mathlib.Omega.{arith}
use keelith.Prelude.Tests.{ltb, leb, ◌==◌, if◌then◌else◌, ==_iff, and-left, and-right}
use keelith.Prelude.Lists.{all}

abbrev pub Text : Type 0
Text = List ℕ

-- The bytes of an ASCII literal.
abbrev pub codes : String → Text
codes String.[] = []
codes (String.◌∷◌ c s) = code c ∷ codes s

unfoldable pub text_eq : Text → Text → Bool
text_eq [] [] = true
text_eq (x ∷ xs) (y ∷ ys) = x == y && text_eq xs ys
text_eq _ _ = false

text_eq_sound : (s t : Text) → text_eq s t ≡ true → s ≡ t
unfolding text_eq
text_eq_sound [] [] h = refl
text_eq_sound [] (y ∷ ys) h = cc
text_eq_sound (x ∷ xs) [] h = cc
text_eq_sound (x ∷ xs) (y ∷ ys) h =
    ap₂ ◌∷◌ ((==_iff x y).0 (and-left _ _ h)) (text_eq_sound xs ys (and-right (x == y) _ h))

pub text_eq_refl : (s : Text) → text_eq s s ≡ true
unfolding text_eq
text_eq_refl [] = refl
text_eq_refl (x ∷ xs) = ground (arith, text_eq_refl xs)

text_eq_complete : (s t : Text) → s ≡ t → text_eq s t ≡ true
text_eq_complete s t e = rw e (text_eq_refl t)

pub text_eq_iff : (s t : Text) → (text_eq s t ≡ true) ↔ (s ≡ t)
text_eq_iff s t = (text_eq_sound s t, text_eq_complete s t)

-- s == ""
abbrev pub is_empty : Text → Bool
is_empty [] = true
is_empty (_ ∷ _) = false

-- The order of strings: bytewise, a proper prefix first.
unfoldable pub text_lt : Text → Text → Bool
text_lt [] [] = false
text_lt [] (y ∷ ys) = true
text_lt (x ∷ xs) [] = false
text_lt (x ∷ xs) (y ∷ ys) =
    let rest = text_lt xs ys in if ltb x y then true else if x == y then rest else false

-- A continuation byte of UTF-8.
abbrev is_continuation : ℕ → Bool
is_continuation b = leb 128 b && leb b 191

abbrev within : ℕ → ℕ → ℕ → Bool
within lo hi b = leb lo b && leb b hi

-- The result of decoding: the code point, whether it was well formed, and how many bytes it took.
pub record Rune : Type 0 where
  pub point : ℕ
  pub well_formed : Bool
  pub width : ℕ

-- utf8.RuneError, for one byte.
abbrev bad_rune : Rune
bad_rune = record { point = 65533; well_formed = false; width = 1 }

two_bytes : ℕ → Text → Rune
two_bytes a (b ∷ _) =
    if is_continuation b
    then record { point = (a - 192) * 64 + (b - 128); well_formed = true; width = 2 }
    else bad_rune
two_bytes a [] = bad_rune

-- The first two bytes of three: no overlong form and no surrogate.
abbrev three_lead : ℕ → ℕ → Bool
three_lead a b =
    if a == 224 then within 160 191 b else if a == 237 then within 128 159 b else within 128 191 b

three_bytes : ℕ → Text → Rune
three_bytes a (b ∷ c ∷ _) =
    if three_lead a b && is_continuation c
    then record {
      point = (a - 224) * 4096 + (b - 128) * 64 + (c - 128);
      well_formed = true;
      width = 3;
    }
    else bad_rune
three_bytes a _ = bad_rune

-- The first two bytes of four: no overlong form and nothing above U+10FFFF.
abbrev four_lead : ℕ → ℕ → Bool
four_lead a b =
    if a == 240 then within 144 191 b else if a == 244 then within 128 143 b else within 128 191 b

four_bytes : ℕ → Text → Rune
four_bytes a (b ∷ c ∷ d ∷ _) =
    if four_lead a b && is_continuation c && is_continuation d
    then record {
      point = (a - 240) * 262144 + (b - 128) * 4096 + (c - 128) * 64 + (d - 128);
      well_formed = true;
      width = 4;
    }
    else bad_rune
four_bytes a _ = bad_rune

-- utf8.DecodeRuneInString, of a first byte and what follows it.
unfoldable pub decode_rune : ℕ → Text → Rune
unfolding two_bytes three_bytes four_bytes
decode_rune a rest =
    if ltb a 128
    then record { point = a; well_formed = true; width = 1 }
    else if within 194 223 a
    then two_bytes a rest
    else if within 224 239 a
    then three_bytes a rest
    else if within 240 244 a
    then four_bytes a rest
    else bad_rune

-- The runes of `for _, r := range s`: a byte that an earlier rune has taken is skipped.
runes_from : ℕ → Text → List Rune
runes_from skip [] = []
runes_from zero (b ∷ rest) = let r = decode_rune b rest in r ∷ runes_from (r.width - 1) rest
runes_from (suc skip) (b ∷ rest) = runes_from skip rest

unfoldable pub runes : Text → List Rune
unfolding runes_from decode_rune
runes = runes_from 0

-- utf8.ValidString
unfoldable pub valid_utf8 : Text → Bool
unfolding runes
valid_utf8 s = all (λ r. r.well_formed) (runes s)

-- unicode.IsControl: the category Cc.
abbrev pub is_control : ℕ → Bool
is_control r = ltb r 32 || within 127 159 r

-- unicode.IsSpace: the property White_Space.
abbrev pub is_space : ℕ → Bool
is_space r =
    within 9 13 r
    || (r == 32
        || (r == 133
            || (r == 160
                || (r == 5760
                    || (within 8192 8202 r
                        || (r == 8232
                            || (r == 8233 || (r == 8239 || (r == 8287 || r == 12288)))))))))

-- How many leading bytes strings.TrimSpace removes.
leading_space : List Rune → ℕ
leading_space [] = 0
leading_space (r ∷ rs) =
    let rest = leading_space rs in if is_space r.point then r.width + rest else 0

-- strings.TrimSpace(s) == s: neither end of a well-formed s is white space.
unfoldable pub is_trimmed : Text → Bool
unfolding leading_space runes
is_trimmed s = leading_space (runes s) == 0 && leading_space (reverse (runes s)) == 0
