-- ===== src/Base64.antt =====
-- src/base64.c. An `int64_t` is its two's complement pattern, a number below 2 ^ 64; in these
-- functions it is negative from 2 ^ 63 on. The buffer `where` is the list of the characters
-- written, without the NUL.
pub mod RoundTrip
use burp.Prelude.{
  ℕ, zero, suc, ◌+◌, ◌-◌, ◌*◌, ◌/◌, ◌%◌, ◌^◌, Bool, true, false, Option, none, some, List, [], ◌∷◌,
  ◌++◌, ltb, leb, ◌==◌, if◌then◌else◌, get_or,
}
use burp.Prelude.Chars.{Bytes, codes}

abbrev pub int64_mod : ℕ
int64_mod = 2 ^ 64

abbrev base64_digits : Bytes
base64_digits = codes "ABCDEFGHIJKLMNOPQRSTUVWXYZabcdefghijklmnopqrstuvwxyz0123456789+/"

digit : ℕ → ℕ
digit v = get_or base64_digits v 0

-- `base64_map[base64_digits[i]] = i` for the digits from the `i`th on; the map starts as zeros.
init_from : ℕ → Bytes → (ℕ → ℕ) → ℕ → ℕ
init_from i [] m c = m c
init_from i (d ∷ ds) m c = init_from (i + 1) ds (λ x. if x == d then i else m x) c

base64_map : ℕ → ℕ
unfolding init_from
base64_map = init_from 0 base64_digits (λ _. 0)

-- The first loop of `to_base64`: the number of digits, on top of `i`.
size_loop : ℕ → ℕ → ℕ → ℕ
size_loop zero val i = i
size_loop (suc f) val i =
    let rest = size_loop f (val / 64) (i + 1) in if val / 64 == 0 then i + 1 else rest

-- The second loop, which writes the digits from the last to the first, in front of `acc`.
digits_loop : ℕ → ℕ → Bytes → Bytes
unfolding digit
digits_loop zero val acc = acc
digits_loop (suc f) val acc =
    let rest = digits_loop f (val / 64) (digit (val % 64) ∷ acc) in
    if val / 64 == 0 then digit (val % 64) ∷ acc else rest

-- 11 digits of 6 bits hold the 64 bits of a value.
abbrev rounds : ℕ
rounds = 11

-- The count that `to_base64` returns, and the characters; the argument is converted to `int64_t`.
unfoldable pub to_base64 : ℕ → ℕ × Bytes
unfolding size_loop digits_loop
to_base64 v =
    let value = v % int64_mod in
    if leb (2 ^ 63) value
    then (size_loop rounds (int64_mod - value) 1, b'-' ∷ digits_loop rounds (int64_mod - value) [])
    else (size_loop rounds value 0, digits_loop rounds value [])

-- The loop of `from_base64`. `none` is a read behind the end of `base64_map`, which has 128 cells.
value_loop : ℕ → Bytes → Option (ℕ × Bytes)
unfolding base64_map
value_loop val [] = some (val, [])
value_loop val (c ∷ s) =
    let rest = value_loop ((val * 64 % int64_mod + base64_map c) % int64_mod) s in
    if c == b' ' then some (val, c ∷ s) else if leb 128 c then none else rest

abbrev starts_minus : Bytes → Bool
starts_minus [] = false
starts_minus (c ∷ s) = c == b'-'

abbrev tail : Bytes → Bytes
tail [] = []
tail (c ∷ s) = s

negate : Option (ℕ × Bytes) → Option (ℕ × Bytes)
negate none = none
negate (some (val, s)) = some ((int64_mod - val) % int64_mod, s)

-- The value, and the rest of the string behind it: `where` plus the count that is returned.
unfoldable pub from_base64 : Bytes → Option (ℕ × Bytes)
unfolding value_loop negate
from_base64 s = if starts_minus s then negate (value_loop 0 (tail s)) else value_loop 0 s
