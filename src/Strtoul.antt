-- ===== src/Strtoul.antt =====
-- `strtoul` and `strtoull` of the C library to base 10, which agree, since both types have 64 bits.
use burp.Prelude.{ℕ, ◌+◌, ◌-◌, ◌*◌, ◌%◌, ◌^◌, ◌&&◌, [], ◌∷◌, ltb, leb, ◌==◌, if◌then◌else◌}
use burp.Prelude.Chars.{Bytes}
use burp.Hex.{is_space}

abbrev ulong_mod : ℕ
ulong_mod = 2 ^ 64

-- The digits of `strtoul` to base 10; a number that is too large becomes the largest.
strtoul_loop : ℕ → Bytes → ℕ
strtoul_loop v [] = v
strtoul_loop v (c ∷ s) =
    let rest = strtoul_loop (v * 10 + (c - 48)) s in if leb b'0' c && leb c b'9' then rest else v

clamp : ℕ → ℕ
clamp v = if ltb v ulong_mod then v else ulong_mod - 1

strtoul_spaces : Bytes → ℕ
unfolding strtoul_loop clamp
strtoul_spaces [] = 0
strtoul_spaces (c ∷ s) =
    let rest = strtoul_spaces s in
    if is_space c
    then rest
    else if c == b'-'
    then (ulong_mod - clamp (strtoul_loop 0 s)) % ulong_mod
    else if c == b'+'
    then clamp (strtoul_loop 0 s)
    else clamp (strtoul_loop 0 (c ∷ s))

unfoldable pub strtoul : Bytes → ℕ
unfolding strtoul_spaces
strtoul = strtoul_spaces
