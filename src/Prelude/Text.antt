-- ===== src/Prelude/Text.antt =====
-- The operations of Python's `str` that the program uses, over the native texts.
use Prim.Native.Nat.{ℕ, zero, suc, ◌/◌, ◌%◌}
use Prim.Native.Char.{Char, code}
use Prim.Native.String.{String, [], ◌∷◌}
use mathlib.Core.Path.{◌≡◌, refl}
use mathlib.Core.Logic.{inl, inr}
use mathlib.Core.Bool.{Bool, true, false, ◌&&◌, ◌||◌}
use mathlib.Core.List.{List}
use work_behavior_analytics.Prelude.Tests.{if◌then◌else◌, nat_beq, leb, ltb, Bool-cases}
pub use Prim.Native.String.{◌++◌}
pub use text.Mathlib.Text.{starts_with}

-- `not s`
abbrev pub is_empty : String → Bool
is_empty [] = true
is_empty (c ∷ s) = false

pub is_empty-eq : (s : String) → is_empty s ≡ true → s ≡ ""
is_empty-eq [] h = refl
is_empty-eq (c ∷ s) h = cc

-- `s.startswith(prefix)`
abbrev pub has_prefix : String → String → Bool
has_prefix s [] = true
has_prefix [] (p ∷ prefix) = false
has_prefix (c ∷ s) (p ∷ prefix) = nat_beq (code c) (code p) && has_prefix s prefix

-- `needle in s`
unfoldable pub has_text : String → String → Bool
has_text needle [] = is_empty needle
has_text needle (c ∷ s) = has_prefix (c ∷ s) needle || has_text needle s

-- The white space of Unicode beyond Latin-1.
abbrev is_wide_space : ℕ → Bool
is_wide_space n =
    nat_beq n 5760
    || (leb 8192 n && leb n 8202)
    || (leb 8232 n && leb n 8233)
    || nat_beq n 8239
    || nat_beq n 8287
    || nat_beq n 12288

-- The white space that `str.strip` removes.
unfoldable pub is_space : Char → Bool
is_space c =
    let n = code c in
    (leb 9 n && leb n 13)
    || (leb 28 n && leb n 32)
    || nat_beq n 133
    || nat_beq n 160
    || is_wide_space n

unfoldable pub lstrip : String → String
unfolding is_space
lstrip [] = []
lstrip (c ∷ s) = let rest = lstrip s in if is_space c then rest else c ∷ s

unfoldable pub rstrip : String → String
unfolding is_space
rstrip [] = []
rstrip (c ∷ s) = let rest = rstrip s in if is_space c && is_empty rest then [] else c ∷ rest

-- s.strip()
unfoldable pub strip : String → String
unfolding lstrip rstrip
strip s = rstrip (lstrip s)

rstrip-rstrip : (s : String) → rstrip (rstrip s) ≡ rstrip s
unfolding rstrip
rstrip-rstrip [] = refl
rstrip-rstrip (c ∷ s) = elim (Bool-cases (is_space c && is_empty (rstrip s))) [
  | inl e ↦ rw e refl
  | inr e ↦ rw (e, rstrip-rstrip s, e) refl
]

lstrip-keeps : (c : Char) (s : String) → is_space c ≡ false → lstrip (c ∷ s) ≡ c ∷ s
unfolding lstrip
lstrip-keeps c s e = rw e refl

rstrip-keeps : (c : Char) (s : String) → is_space c ≡ false → rstrip (c ∷ s) ≡ c ∷ rstrip s
unfolding rstrip
rstrip-keeps c s e = rw e refl

lstrip-rstrip-lstrip : (s : String) → lstrip (rstrip (lstrip s)) ≡ rstrip (lstrip s)
unfolding lstrip rstrip
lstrip-rstrip-lstrip [] = refl
lstrip-rstrip-lstrip (c ∷ s) = elim (Bool-cases (is_space c)) [
  | inl e ↦ rw e (lstrip-rstrip-lstrip s)
  | inr e ↦ rw (e, rstrip-keeps c s e) (lstrip-keeps c (rstrip s) e)
]

pub strip-strip : (s : String) → strip (strip s) ≡ strip s
unfolding strip
strip-strip s = rw (lstrip-rstrip-lstrip s) (rstrip-rstrip (lstrip s))

-- `s.rstrip("/")`
unfoldable pub rstrip_slash : String → String
rstrip_slash [] = []
rstrip_slash (c ∷ s) =
    let rest = rstrip_slash s in if nat_beq (code c) 47 && is_empty rest then [] else c ∷ rest

-- s[n:]
unfoldable pub slice_from : ℕ → String → String
slice_from zero s = s
slice_from (suc n) [] = []
slice_from (suc n) (c ∷ s) = slice_from n s

abbrev upper_among : String → String → Char → Char
upper_among [] capitals c = c
upper_among (l ∷ letters) [] c = c
upper_among (l ∷ letters) (u ∷ capitals) c =
    if nat_beq (code l) (code c) then u else upper_among letters capitals c

-- s.upper() on the letters of ASCII
unfoldable pub upper : String → String
upper [] = []
upper (c ∷ s) = upper_among "abcdefghijklmnopqrstuvwxyz" "ABCDEFGHIJKLMNOPQRSTUVWXYZ" c ∷ upper s

-- s.lower() on the letters of ASCII
unfoldable pub lower : String → String
lower [] = []
lower (c ∷ s) = upper_among "ABCDEFGHIJKLMNOPQRSTUVWXYZ" "abcdefghijklmnopqrstuvwxyz" c ∷ lower s

-- s[:n]
unfoldable pub slice_to : ℕ → String → String
slice_to zero s = []
slice_to (suc n) [] = []
slice_to (suc n) (c ∷ s) = c ∷ slice_to n s

abbrev pub cons_first : Char → List String → List String
cons_first c List.[] = List.◌∷◌ (c ∷ []) List.[]
cons_first c (List.◌∷◌ s rest) = List.◌∷◌ (c ∷ s) rest

-- s.split("\n")
unfoldable pub split_lines : String → List String
split_lines [] = List.◌∷◌ [] List.[]
split_lines (c ∷ s) =
    let rest = split_lines s in if nat_beq (code c) 10 then List.◌∷◌ [] rest else cons_first c rest

abbrev digit_of : ℕ → String
digit_of zero = "0"
digit_of (suc zero) = "1"
digit_of (suc (suc zero)) = "2"
digit_of (suc (suc (suc zero))) = "3"
digit_of (suc (suc (suc (suc zero)))) = "4"
digit_of (suc (suc (suc (suc (suc zero))))) = "5"
digit_of (suc (suc (suc (suc (suc (suc zero)))))) = "6"
digit_of (suc (suc (suc (suc (suc (suc (suc zero))))))) = "7"
digit_of (suc (suc (suc (suc (suc (suc (suc (suc zero)))))))) = "8"
digit_of _ = "9"

decimal : ℕ → ℕ → String
decimal zero n = ""
decimal (suc fuel) n =
    let front = decimal fuel (n / 10) in if ltb n 10 then digit_of n else front ++ digit_of (n % 10)

-- str(n). A number has no more digits than `n + 1`, so the fuel is enough.
unfoldable pub show_nat : ℕ → String
unfolding decimal
show_nat n = decimal (suc n) n
