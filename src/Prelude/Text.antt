-- ===== src/Prelude/Text.antt =====
-- Python's `str.strip` on the native texts.
pub mod Decimal
use Prim.Native.Nat.{ℕ}
use Prim.Native.Char.{code}
use Prim.Native.String.{String}
use mathlib.Core.Path.{◌≡◌, refl}
use mathlib.Core.Bool.{Bool, true, false, not, ◌||◌, ◌&&◌}
use mathlib.Core.Path.{ap}
use native.Mathlib.Omega.{arith}
use kontur.Prelude.Tests.{nat_eq, leb, if◌then◌else◌}

-- `str.isspace` of one character, by its code point.
unfoldable pub is_space : ℕ → Bool
is_space c =
    leb 9 c && leb c 13
    || leb 28 c && leb c 32
    || nat_eq c 133
    || nat_eq c 160
    || nat_eq c 5760
    || leb 8192 c && leb c 8202
    || nat_eq c 8232
    || nat_eq c 8233
    || nat_eq c 8239
    || nat_eq c 8287
    || nat_eq c 12288

unfoldable pub lstrip : String → String
unfolding is_space
lstrip String.[] = ""
lstrip (String.◌∷◌ c s) = let rest = lstrip s in if is_space (code c) then rest else String.◌∷◌ c s

-- `s == ""`
abbrev pub is_blank : String → Bool
is_blank String.[] = true
is_blank (String.◌∷◌ _ _) = false

-- The character is dropped if it is a space and nothing but spaces follows.
unfoldable pub rstrip : String → String
unfolding is_space
rstrip String.[] = ""
rstrip (String.◌∷◌ c s) =
    let rest = rstrip s in if is_space (code c) && is_blank rest then "" else String.◌∷◌ c rest

unfoldable pub strip : String → String
unfolding lstrip rstrip
strip s = rstrip (lstrip s)

-- `not s.strip()`
unfoldable pub lacks_text : String → Bool
unfolding strip
lacks_text s = is_blank (strip s)

lacks_text-spaces : lacks_text "  \t" ≡ true
unfolding lacks_text
lacks_text-spaces = refl

strip_runs : strip "  a b  " ≡ "a b"
unfolding strip
strip_runs = refl

-- `strip` of a stripped text changes nothing.
starts_clean : String → Bool
unfolding is_space
starts_clean String.[] = true
starts_clean (String.◌∷◌ c s) = not (is_space (code c))

lstrip-starts_clean : (s : String) → starts_clean (lstrip s) ≡ true
unfolding lstrip starts_clean
lstrip-starts_clean String.[] = refl
lstrip-starts_clean (String.◌∷◌ c s) = ground (arith, lstrip-starts_clean s)

lstrip_of_clean : (s : String) → starts_clean s ≡ true → lstrip s ≡ s
unfolding lstrip starts_clean
lstrip_of_clean String.[] h = refl
lstrip_of_clean (String.◌∷◌ c s) h = ground arith

rstrip-starts_clean : (s : String) → starts_clean s ≡ true → starts_clean (rstrip s) ≡ true
unfolding rstrip starts_clean
rstrip-starts_clean String.[] h = refl
rstrip-starts_clean (String.◌∷◌ c s) h = ground arith

rstrip-rstrip : (s : String) → rstrip (rstrip s) ≡ rstrip s
unfolding rstrip
rstrip-rstrip String.[] = refl
rstrip-rstrip (String.◌∷◌ c s) = ground (arith, rstrip-rstrip s)

pub strip-strip : (s : String) → strip (strip s) ≡ strip s
unfolding strip
strip-strip s =
    rw
      (lstrip_of_clean (rstrip (lstrip s)) (rstrip-starts_clean (lstrip s) (lstrip-starts_clean s)))
      (rstrip-rstrip (lstrip s))

pub lacks_text-strip : (s : String) → lacks_text (strip s) ≡ lacks_text s
unfolding lacks_text
lacks_text-strip s = ap is_blank (strip-strip s)

pub lacks_text_lem : (s : String) → lacks_text s ≡ is_blank (strip s)
unfolding lacks_text
lacks_text_lem s = refl
