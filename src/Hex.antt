-- ===== src/Hex.antt =====
-- The conversions of the C library that the messages use: `%04X` of `printf`, and `%c%04X` of
-- `sscanf`. An `unsigned int` is a number below 2 ^ 32.
pub mod RoundTrip
use burp.Prelude.{
  ℕ, zero, suc, ◌+◌, ◌-◌, ◌*◌, ◌/◌, ◌%◌, ◌^◌, Bool, true, false, ◌&&◌, ◌||◌, Option, none, some,
  List, [], ◌∷◌, ltb, leb, ◌==◌, if◌then◌else◌,
}
use burp.Prelude.Chars.{Bytes}

abbrev pub uint_mod : ℕ
uint_mod = 2 ^ 32

pub hex_digit : ℕ → ℕ
hex_digit d = if ltb d 10 then 48 + d else 55 + d

-- The digits of `v`, at least `width` of them, in front of `acc`.
hex_loop : ℕ → ℕ → ℕ → Bytes → Bytes
unfolding hex_digit
hex_loop zero width v acc = acc
hex_loop (suc f) width v acc =
    let rest = hex_loop f (width - 1) (v / 16) (hex_digit (v % 16) ∷ acc) in
    if v == 0 && width == 0 then acc else rest

-- `%04X`. An `unsigned int` has at most 8 digits.
unfoldable pub print_04x : ℕ → Bytes
unfolding hex_loop
print_04x v = hex_loop 8 4 (v % uint_mod) []

abbrev within : ℕ → ℕ → ℕ → Bool
within lo hi c = leb lo c && leb c hi

-- `isspace` in the C locale.
abbrev pub is_space : ℕ → Bool
is_space c = c == b' ' || within 9 13 c

hex_value : ℕ → Option ℕ
hex_value c =
    if within b'0' b'9' c
    then some (c - 48)
    else if within b'A' b'F' c
    then some (c - 55)
    else if within b'a' b'f' c
    then some (c - 87)
    else none

skip_spaces : Bytes → Bytes
skip_spaces [] = []
skip_spaces (c ∷ s) = let rest = skip_spaces s in if is_space c then rest else c ∷ s

-- At most `width` digits; `val` is none until one is read.
digits : ℕ → Option ℕ → Bytes → Option ℕ
unfolding hex_value
digits zero val s = val
digits (suc w) val [] = val
digits (suc w) val (c ∷ s) = elim (hex_value c) [
  | none ↦ val
  | some d ↦ digits w (some (elim val [ none ↦ d | some v ↦ v * 16 + d ])) s
]

-- The optional "0x" in front of the digits.
prefixed : ℕ → Bytes → Option ℕ
unfolding digits
prefixed w (a ∷ b ∷ s) =
    if a == b'0' && (b == b'x' || b == b'X') && leb 2 w
    then digits (w - 2) none s
    else digits w none (a ∷ b ∷ s)
prefixed w s = digits w none s

abbrev negated : Option ℕ → Option ℕ
negated none = none
negated (some v) = some ((uint_mod - v) % uint_mod)

-- The optional sign, which counts for the width; a negative number wraps.
signed : ℕ → Bytes → Option ℕ
unfolding prefixed
signed w [] = none
signed w (c ∷ s) =
    if c == b'-'
    then negated (prefixed (w - 1) s)
    else if c == b'+'
    then prefixed (w - 1) s
    else prefixed w (c ∷ s)

-- The number of `%04X`.
unfoldable pub scan_04x : Bytes → Option ℕ
unfolding signed skip_spaces
scan_04x s = signed 4 (skip_spaces s)

is_hex : ℕ → Bool
is_hex c = within b'0' b'9' c || within b'A' b'F' c || within b'a' b'f' c

-- What stands behind the number of `%04X`, where there is one.
after_digits : ℕ → Bytes → Bytes
unfolding is_hex
after_digits zero s = s
after_digits (suc w) [] = []
after_digits (suc w) (c ∷ s) = let rest = after_digits w s in if is_hex c then rest else c ∷ s

after_prefix : ℕ → Bytes → Bytes
unfolding after_digits
after_prefix w (a ∷ b ∷ s) =
    if a == b'0' && (b == b'x' || b == b'X') && leb 2 w
    then after_digits (w - 2) s
    else after_digits w (a ∷ b ∷ s)
after_prefix w s = after_digits w s

after_sign : ℕ → Bytes → Bytes
unfolding after_prefix
after_sign w [] = []
after_sign w (c ∷ s) =
    if c == b'-' || c == b'+' then after_prefix (w - 1) s else after_prefix w (c ∷ s)

unfoldable pub after_04x : Bytes → Bytes
unfolding after_sign skip_spaces
after_04x s = after_sign 4 (skip_spaces s)

-- `sscanf(s, "%c%04X", ...)`; none unless both conversions are made.
unfoldable pub scan_head : Bytes → Option (ℕ × ℕ)
scan_head [] = none
scan_head (c ∷ s) =
    if c == 0 then none else elim (scan_04x s) [ none ↦ none | some v ↦ some (c, v) ]
