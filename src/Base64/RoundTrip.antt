-- ===== src/Base64/RoundTrip.antt =====
-- `to_base64` and `from_base64` of src/base64.c together.
use native.Mathlib.Nat.{pow-suc}
use burp.Prelude.{
  ℕ, zero, suc, ◌+◌, ◌-◌, ◌*◌, ◌/◌, ◌%◌, ◌^◌, ◌≤◌, ◌<◌, ◌≡◌, refl, ◌∙◌, Bool, true, false, not,
  ◌&&◌, some, [], ◌∷◌, ◌++◌, arith, leb, ltb, ◌==◌, Bool-cases, inl, inr, holds_below,
  holds_below_sound, length,
}
use burp.Prelude.Chars.{Bytes}
use burp.Base64.{
  int64_mod, digit, base64_map, size_loop, digits_loop, rounds, to_base64, value_loop, starts_minus,
  from_base64,
}

-- What a digit is not, and that the map inverts it.
abbrev is_digit_of : ℕ → Bool
is_digit_of v =
    base64_map (digit v) == v
    && (not (digit v == b' ') && (not (digit v == b'-') && ltb (digit v) 128))

digit_table : holds_below is_digit_of 64 ≡ true
unfolding holds_below digit base64_map
digit_table = refl

digit_lem :
    (v : ℕ)
    → v < 64
    → (base64_map (digit v) ≡ v)
      × ((digit v == b' ') ≡ false)
      × ((digit v == b'-') ≡ false)
      × (leb 128 (digit v) ≡ false)
digit_lem v h = ground (arith, holds_below_sound is_digit_of 64 v h digit_table)

value_loop-digits_loop :
    (f v : ℕ) (s : Bytes)
    → v < 64 ^ f
    → v < int64_mod
    → value_loop 0 (digits_loop f v s) ≡ value_loop v s
unfolding digits_loop value_loop
value_loop-digits_loop zero v s h w = let e : v ≡ 0 = omega arith in rw e
value_loop-digits_loop (suc f) v s h w =
    let h' : v < 64 ^ f * 64 = rw pow-suc at h in
    ground (arith, digit_lem (v % 64), value_loop-digits_loop f (v / 64) (digit (v % 64) ∷ s))

digits_loop-append : (f v : ℕ) (s t : Bytes) → digits_loop f v s ++ t ≡ digits_loop f v (s ++ t)
unfolding digits_loop
digits_loop-append zero v s t = refl
digits_loop-append (suc f) v s t =
    ground (arith, digits_loop-append f (v / 64) (digit (v % 64) ∷ s) t)

starts_minus-digits_loop :
    (f v : ℕ) (s : Bytes) → starts_minus s ≡ false → starts_minus (digits_loop f v s) ≡ false
unfolding digits_loop
starts_minus-digits_loop zero v s h = h
starts_minus-digits_loop (suc f) v s h =
    ground (arith, digit_lem (v % 64), starts_minus-digits_loop f (v / 64) (digit (v % 64) ∷ s))

-- A number has at least one digit, so what follows it does not matter.
starts_minus-digits : (f v : ℕ) (s : Bytes) → starts_minus (digits_loop (suc f) v s) ≡ false
unfolding digits_loop
starts_minus-digits f v s =
    ground (arith, digit_lem (v % 64), starts_minus-digits_loop f (v / 64) (digit (v % 64) ∷ s))

length-digits_loop :
    (f v i : ℕ) (s : Bytes) → size_loop f v i + length s ≡ i + length (digits_loop f v s)
unfolding digits_loop size_loop
length-digits_loop zero v i s = refl
length-digits_loop (suc f) v i s =
    ground (arith, length-digits_loop f (v / 64) (i + 1) (digit (v % 64) ∷ s))

-- The count that `to_base64` returns is the number of characters that it writes.
pub length-to_base64 : (v : ℕ) → (to_base64 v).0 ≡ length (to_base64 v).1
unfolding to_base64
length-to_base64 v = ground (
  arith,
  length-digits_loop rounds (int64_mod - v % int64_mod) 1 [],
  length-digits_loop rounds (v % int64_mod) 0 [],
)

size_loop_le : (f v i : ℕ) → size_loop f v i ≤ f + i
unfolding size_loop
size_loop_le zero v i = omega arith
size_loop_le (suc f) v i = ground (arith, size_loop_le f (v / 64) (i + 1))

-- The buffer needs at most 12 characters.
pub to_base64_le : (v : ℕ) → length (to_base64 v).1 ≤ 12
unfolding to_base64
to_base64_le v = ground (
  arith,
  length-to_base64 v,
  size_loop_le rounds (int64_mod - v % int64_mod) 1,
  size_loop_le rounds (v % int64_mod) 0,
)

-- How a number ends: at a space or at the end of the string.
abbrev pub IsEnd : Bytes → Type 0
IsEnd [] = Unit
IsEnd (c ∷ s) = c ≡ b' '

value_loop-end : (v : ℕ) (s : Bytes) → IsEnd s → value_loop v s ≡ some (v, s)
unfolding value_loop
value_loop-end v [] h = refl
value_loop-end v (c ∷ s) h = ground arith

read_digits :
    (v : ℕ) (s : Bytes)
    → v < int64_mod
    → IsEnd s
    → value_loop 0 (digits_loop rounds v [] ++ s) ≡ some (v, s)
read_digits v s h e =
    rw digits_loop-append (value_loop-digits_loop rounds v s (omega arith) h ∙ value_loop-end v s e)

-- For every number, taken as an `int64_t`, `from_base64` reads what `to_base64` wrote, up to the
-- first character behind it, where that is the end of the string or a character that ends the
-- number.
pub from-to_base64 :
    (v : ℕ) (s : Bytes) → IsEnd s → from_base64 ((to_base64 v).1 ++ s) ≡ some (v % int64_mod, s)
unfolding from_base64 to_base64
from-to_base64 v s e = elim (Bool-cases (leb (2 ^ 63) (v % int64_mod))) [
  | inl neg ↦
      rw neg (rw (read_digits (int64_mod - v % int64_mod) s (ground arith) e) (ground arith))
  | inr nonneg ↦ rw nonneg (
      rw digits_loop-append (
        rw (starts_minus-digits 10 (v % int64_mod) s) (
          value_loop-digits_loop rounds (v % int64_mod) s (omega arith) (omega arith)
          ∙ value_loop-end (v % int64_mod) s e)))
]

size_loop_ge : (f v i : ℕ) → i ≤ size_loop f v i
unfolding size_loop
size_loop_ge zero v i = omega arith
size_loop_ge (suc f) v i = ground (arith, size_loop_ge f (v / 64) (i + 1))

size_loop_pos : (f v i : ℕ) → 1 ≤ size_loop (suc f) v i
unfolding size_loop
size_loop_pos f v i = ground (arith, size_loop_ge f (v / 64) (i + 1))

-- At least one character is written.
pub to_base64_pos : (v : ℕ) → 1 ≤ length (to_base64 v).1
unfolding to_base64
to_base64_pos v = ground (
  arith,
  length-to_base64 v,
  size_loop_pos 10 (int64_mod - v % int64_mod) 1,
  size_loop_pos 10 (v % int64_mod) 0,
)
