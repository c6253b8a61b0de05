-- ===== src/Path.antt =====
-- `pathcmp` and `is_subdir` of src/conf.c. `char` is signed, as gcc has it on x86: a byte of 128
-- or more compares below the others.
pub mod Order
pub mod Subdir
use burp.Prelude.{
  ℕ, ◌+◌, ◌%◌, Bool, true, false, not, ◌&&◌, Option, none, some, List, [], ◌∷◌, ltb, ◌==◌,
  if◌then◌else◌,
}
use burp.Prelude.Chars.{Bytes}

-- The ints -1, 0 and 1 that comparisons return.
pub data Cmp : Type 0 where
  less same more : Cmp

abbrev pub slash : ℕ
slash = b'/'

-- `x < y` on signed chars.
abbrev pub char_lt : ℕ → ℕ → Bool
char_lt x y = ltb ((x + 128) % 256) ((y + 128) % 256)

-- The loop of `pathcmp` over two strings.
pub pathcmp_str : Bytes → Bytes → Cmp
pathcmp_str [] [] = same
pathcmp_str (x ∷ xs) [] = more
pathcmp_str [] (y ∷ ys) = less
pathcmp_str (x ∷ xs) (y ∷ ys) =
    let rest = pathcmp_str xs ys in
    if x == y
    then rest
    else if x == slash && not (y == slash)
    then less
    else if not (x == slash) && y == slash
    then more
    else if char_lt x y
    then less
    else if char_lt y x
    then more
    else rest

-- `none` is a null pointer.
unfoldable pub pathcmp : Option Bytes → Option Bytes → Cmp
unfolding pathcmp_str
pathcmp none none = same
pathcmp (some a) none = more
pathcmp none (some b) = less
pathcmp (some a) (some b) = pathcmp_str a b

abbrev at_end : Bytes → Bool
at_end [] = true
at_end (c ∷ s) = false

-- `*s == '/'`, also at the end of `s`, where `*s` is NUL.
abbrev at_slash : Bytes → Bool
at_slash [] = false
at_slash (c ∷ s) = c == slash

-- What follows `s+1`, for a pointer `s` that is not at the end.
abbrev advance : Bytes → Bytes
advance [] = []
advance (c ∷ s) = s

-- The tests behind the loop of `is_subdir`.
subdir_result : ℕ → Bytes → Bytes → Bytes → Bytes → ℕ
subdir_result count sl dl s d =
    if at_end d && at_end s
    then count + 1
    else if at_end d && at_slash s
    then count + 1
    else if at_slash dl && at_slash sl && not (at_end (advance sl)) && at_end (advance dl)
    then count
    else 0

-- The loop of `is_subdir`; `sl` and `dl` point at the last characters that matched.
subdir_loop : ℕ → Bytes → Bytes → Bytes → Bytes → ℕ
unfolding subdir_result
subdir_loop count sl dl (x ∷ s) (y ∷ d) =
    let rest = subdir_loop (if x == slash then count + 1 else count) (x ∷ s) (y ∷ d) s d in
    if not (x == y) then subdir_result count sl dl (x ∷ s) (y ∷ d) else rest
subdir_loop count sl dl s d = subdir_result count sl dl s d

unfoldable pub is_subdir : Option Bytes → Option Bytes → ℕ
unfolding subdir_loop
is_subdir (some dir) (some sub) = subdir_loop 1 sub dir sub dir
is_subdir _ _ = 0
