-- ===== src/Path/Order.antt =====
-- The order of `pathcmp` of src/conf.c.
use burp.Prelude.{
  ℕ, ◌+◌, ◌%◌, ◌<◌, ◌≡◌, refl, ◌≢◌, List, [], ◌∷◌, map, arith, All, ltb, ◌==◌, if◌then◌else◌,
}
use burp.Prelude.Chars.{Bytes}
use burp.Path.{Cmp, less, same, more, slash, pathcmp_str}

abbrev pub IsByte : ℕ → Type 0
IsByte c = c < 256

-- The place of a character in the order: '/' is before all others.
pub rank : ℕ → ℕ
rank c = if c == slash then 0 else 1 + (c + 128) % 256

-- The lexicographic comparison of two lists of numbers.
pub lex : List ℕ → List ℕ → Cmp
lex [] [] = same
lex (x ∷ xs) [] = more
lex [] (y ∷ ys) = less
lex (x ∷ xs) (y ∷ ys) =
    let rest = lex xs ys in if ltb x y then less else if ltb y x then more else rest

abbrev pub opposite : Cmp → Cmp
opposite less = more
opposite same = same
opposite more = less

-- On byte strings, the comparison of `pathcmp` is the lexicographic order of the ranks of the
-- characters, where the slash comes first and the other characters follow in the order of a signed
-- char.
pub pathcmp-lex :
    (a b : Bytes) → All IsByte a → All IsByte b → pathcmp_str a b ≡ lex (map rank a) (map rank b)
unfolding pathcmp_str lex rank
pathcmp-lex [] [] ha hb = refl
pathcmp-lex (x ∷ a) [] ha hb = refl
pathcmp-lex [] (y ∷ b) ha hb = refl
pathcmp-lex (x ∷ a) (y ∷ b) ha hb = ground (arith, pathcmp-lex a b)

-- On byte strings, the comparison of `pathcmp` with the arguments swapped gives the opposite
-- answer.
pub pathcmp-opposite :
    (a b : Bytes) → All IsByte a → All IsByte b → pathcmp_str b a ≡ opposite (pathcmp_str a b)
unfolding pathcmp_str
pathcmp-opposite [] [] ha hb = refl
pathcmp-opposite (x ∷ a) [] ha hb = refl
pathcmp-opposite [] (y ∷ b) ha hb = refl
pathcmp-opposite (x ∷ a) (y ∷ b) ha hb = ground (arith, pathcmp-opposite a b)

pub pathcmp-same : (a b : Bytes) → All IsByte a → All IsByte b → pathcmp_str a b ≡ same → a ≡ b
unfolding pathcmp_str
pathcmp-same [] [] ha hb e = refl
pathcmp-same (x ∷ a) [] ha hb e = ground arith
pathcmp-same [] (y ∷ b) ha hb e = ground arith
pathcmp-same (x ∷ a) (y ∷ b) ha hb e = ground (arith, pathcmp-same a b)

pub pathcmp_refl : (a : Bytes) → pathcmp_str a a ≡ same
unfolding pathcmp_str
pathcmp_refl [] = refl
pathcmp_refl (x ∷ a) = ground (arith, pathcmp_refl a)

pub lex_trans : (a b c : List ℕ) → lex a b ≢ more → lex b c ≡ less → lex a c ≡ less
unfolding lex
lex_trans [] [] [] h k = ground arith
lex_trans [] [] (z ∷ c) h k = refl
lex_trans (x ∷ a) [] c h k = absurd (h refl)
lex_trans a (y ∷ b) [] h k = ground arith
lex_trans [] (y ∷ b) (z ∷ c) h k = refl
lex_trans (x ∷ a) (y ∷ b) (z ∷ c) h k = ground (arith, lex_trans a b c)
