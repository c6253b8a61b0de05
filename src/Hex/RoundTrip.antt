-- ===== src/Hex/RoundTrip.antt =====
-- `%04X` of `printf` and of `sscanf` together, for numbers below 0x10000.
use burp.Prelude.{
  ℕ, suc, ◌+◌, ◌-◌, ◌*◌, ◌/◌, ◌%◌, ◌≤◌, ◌<◌, ◌≡◌, refl, ◌∙◌, ap, Bool, true, false, not, ◌&&◌,
  Option, none, some, [], ◌∷◌, ◌++◌, arith, leb, ◌==◌, holds_below, holds_below_sound, length, take,
}
use burp.Prelude.Chars.{Bytes, c_str}
use burp.Hex.{
  uint_mod, hex_digit, hex_loop, print_04x, is_space, hex_value, skip_spaces, digits, prefixed,
  signed, scan_04x, scan_head, is_hex, after_digits, after_prefix, after_sign, after_04x,
}

abbrev has_value : ℕ → Option ℕ → Bool
has_value d none = false
has_value d (some v) = v == d

abbrev is_digit_of : ℕ → Bool
is_digit_of d =
    has_value d (hex_value (hex_digit d))
    && (not (is_space (hex_digit d)) && (leb b'0' (hex_digit d) && leb (hex_digit d) b'F'))

digit_table : holds_below is_digit_of 16 ≡ true
unfolding holds_below hex_digit hex_value
digit_table = refl

hex_value-hex_digit : (d : ℕ) → d < 16 → hex_value (hex_digit d) ≡ some d
hex_value-hex_digit d h = ground (arith, holds_below_sound is_digit_of 16 d h digit_table)

is_space-hex_digit : (d : ℕ) → d < 16 → is_space (hex_digit d) ≡ false
is_space-hex_digit d h = ground (arith, holds_below_sound is_digit_of 16 d h digit_table)

hex_digit_ge : (d : ℕ) → 48 ≤ hex_digit d
unfolding hex_digit
hex_digit_ge d = ground arith

hex_digit_le : (d : ℕ) → d < 16 → hex_digit d ≤ 70
unfolding hex_digit
hex_digit_le d h = ground arith

-- The digits of a number below 0x10000.
abbrev four : ℕ → Bytes → Bytes
four v s =
    hex_digit (v / 16 / 16 / 16 % 16)
    ∷ hex_digit (v / 16 / 16 % 16)
    ∷ hex_digit (v / 16 % 16)
    ∷ hex_digit (v % 16)
    ∷ s

hex_loop-more :
    (f w v : ℕ) (s : Bytes)
    → 0 < w
    → hex_loop (suc f) w v s ≡ hex_loop f (w - 1) (v / 16) (hex_digit (v % 16) ∷ s)
unfolding hex_loop
hex_loop-more f w v s h = ground arith

hex_loop-stop : (f : ℕ) (s : Bytes) → hex_loop (suc f) 0 0 s ≡ s
unfolding hex_loop
hex_loop-stop f s = refl

hex_loop-four : (v : ℕ) → v < 65536 → hex_loop 8 4 v [] ≡ four v []
hex_loop-four v h =
    hex_loop-more 7 4 v [] (omega arith)
    ∙ hex_loop-more 6 3 (v / 16) _ (omega arith)
    ∙ hex_loop-more 5 2 (v / 16 / 16) _ (omega arith)
    ∙ hex_loop-more 4 1 (v / 16 / 16 / 16) _ (omega arith)
    ∙ (let e : v / 16 / 16 / 16 / 16 ≡ 0 = omega arith in rw e (hex_loop-stop 3 (four v [])))

print-four : (v : ℕ) → v < 65536 → print_04x v ≡ four v []
unfolding print_04x
print-four v h = let e : v % uint_mod ≡ v = omega arith in rw e (hex_loop-four v h)

print-append : (v : ℕ) (s : Bytes) → v < 65536 → print_04x v ++ s ≡ four v s
print-append v s h = rw (print-four v h) refl

pub length-print_04x : (v : ℕ) → v < 65536 → length (print_04x v) ≡ 4
length-print_04x v h = rw (print-four v h) refl

-- The header of a message has no NUL, and is not cut.
pub header-string :
    (c v : ℕ) → 0 < c → v < 65536 → c_str (take 9 (c ∷ print_04x v)) ≡ c ∷ print_04x v
unfolding c_str
header-string c v hc h = rw (print-four v h) (
    ground (
      arith,
      hex_digit_ge (v / 16 / 16 / 16 % 16),
      hex_digit_ge (v / 16 / 16 % 16),
      hex_digit_ge (v / 16 % 16),
      hex_digit_ge (v % 16),
    ))

-- The first digit of a printed number.
pub print-head :
    (v : ℕ) (s : Bytes)
    → v < 65536
    → (c : ℕ) × (t : Bytes) × (print_04x v ++ s ≡ c ∷ t) × (c ≤ b'F')
print-head v s h = (
  hex_digit (v / 16 / 16 / 16 % 16),
  _,
  print-append v s h,
  hex_digit_le (v / 16 / 16 / 16 % 16) (omega arith),
)

digits-four :
    (a b c d : ℕ) (s : Bytes)
    → a < 16
    → b < 16
    → c < 16
    → d < 16
    → digits 4 none (hex_digit a ∷ hex_digit b ∷ hex_digit c ∷ hex_digit d ∷ s)
      ≡ some (((a * 16 + b) * 16 + c) * 16 + d)
unfolding digits
digits-four a b c d s ha hb hc hd =
    rw (hex_value-hex_digit a ha, digits)
      (rw (hex_value-hex_digit b hb, digits)
        (rw (hex_value-hex_digit c hc, digits) (rw (hex_value-hex_digit d hd, digits) refl)))

signed-four :
    (a b : ℕ) (s : Bytes)
    → a < 16
    → b < 16
    → signed 4 (skip_spaces (hex_digit a ∷ hex_digit b ∷ s))
      ≡ digits 4 none (hex_digit a ∷ hex_digit b ∷ s)
unfolding signed skip_spaces prefixed
signed-four a b s ha hb =
    ground (arith, is_space-hex_digit a ha, hex_digit_ge a, hex_digit_ge b, hex_digit_le b hb)

signed-print : (v : ℕ) (s : Bytes) → v < 65536 → signed 4 (skip_spaces (print_04x v ++ s)) ≡ some v
signed-print v s h = rw (print-append v s h) (
    signed-four (v / 16 / 16 / 16 % 16) (v / 16 / 16 % 16) _ (omega arith) (omega arith)
    ∙ digits-four (v / 16 / 16 / 16 % 16) (v / 16 / 16 % 16) (v / 16 % 16) (v % 16) s (omega arith)
        (omega arith) (omega arith) (omega arith)
    ∙ ap some (omega arith))

pub scan_04x-print : (v : ℕ) (s : Bytes) → v < 65536 → scan_04x (print_04x v ++ s) ≡ some v
unfolding scan_04x
scan_04x-print v s h = signed-print v s h

is_hex-hex_digit : (d : ℕ) → d < 16 → is_hex (hex_digit d) ≡ true
unfolding is_hex hex_digit
is_hex-hex_digit d h = ground arith

after-four :
    (a b c d : ℕ) (s : Bytes)
    → a < 16
    → b < 16
    → c < 16
    → d < 16
    → after_digits 4 (hex_digit a ∷ hex_digit b ∷ hex_digit c ∷ hex_digit d ∷ s) ≡ s
unfolding after_digits
after-four a b c d s ha hb hc hd =
    rw (is_hex-hex_digit a ha, is_hex-hex_digit b hb, is_hex-hex_digit c hc, is_hex-hex_digit d hd)
      refl

after_sign-four :
    (a b : ℕ) (s : Bytes)
    → a < 16
    → b < 16
    → after_sign 4 (skip_spaces (hex_digit a ∷ hex_digit b ∷ s))
      ≡ after_digits 4 (hex_digit a ∷ hex_digit b ∷ s)
unfolding after_sign skip_spaces after_prefix
after_sign-four a b s ha hb =
    ground (arith, is_space-hex_digit a ha, hex_digit_ge a, hex_digit_ge b, hex_digit_le b hb)

-- The scan leaves what stands behind the printed number.
pub after_04x-print : (v : ℕ) (s : Bytes) → v < 65536 → after_04x (print_04x v ++ s) ≡ s
unfolding after_04x
after_04x-print v s h = rw (print-append v s h) (
    after_sign-four (v / 16 / 16 / 16 % 16) (v / 16 / 16 % 16)
      (hex_digit (v / 16 % 16) ∷ hex_digit (v % 16) ∷ s) (omega arith) (omega arith)
    ∙ after-four (v / 16 / 16 / 16 % 16) (v / 16 / 16 % 16) (v / 16 % 16) (v % 16) s (omega arith)
        (omega arith) (omega arith) (omega arith))

-- The header of a message is read back, whatever follows it.
pub scan-print :
    (c v : ℕ) (s : Bytes) → 0 < c → v < 65536 → scan_head (c ∷ (print_04x v ++ s)) ≡ some (c, v)
unfolding scan_head
scan-print c v s hc hv = ground (arith, scan_04x-print v s hv)
