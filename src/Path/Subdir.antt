-- ===== src/Path/Subdir.antt =====
-- `is_subdir` of src/conf.c, and a definition of it by prefixes.
use burp.Prelude.{ℕ, ◌+◌, ◌≡◌, Bool, false, Option, none, some, [], ◌∷◌, arith, ◌==◌, if◌then◌else◌}
use burp.Prelude.Chars.{Bytes}
use burp.Path.{slash, subdir_loop, is_subdir}

-- What is left of `sub` behind the prefix `dir`.
pub strip_prefix : Bytes → Bytes → Option Bytes
strip_prefix [] sub = some sub
strip_prefix (y ∷ d) [] = none
strip_prefix (y ∷ d) (x ∷ s) = let rest = strip_prefix d s in if x == y then rest else none

pub slashes : Bytes → ℕ
slashes [] = 0
slashes (c ∷ s) = (if c == slash then 1 else 0) + slashes s

-- Whether the last character is a slash; `before` is the answer for the empty string.
pub ends_in_slash : Bool → Bytes → Bool
ends_in_slash before [] = before
ends_in_slash before (c ∷ s) = ends_in_slash (c == slash) s

-- `dir` has `n` slashes and `rest` follows it in `sub`.
abbrev pub depth : ℕ → Bool → Option Bytes → ℕ
depth n ended none = 0
depth n ended (some []) = n + 2
depth n ended (some (c ∷ _)) = if c == slash then n + 2 else if ended then n + 1 else 0

loop-depth :
    (s d : Bytes) (n c : ℕ)
    → subdir_loop (n + 1) (c ∷ s) (c ∷ d) s d
      ≡ depth (n + slashes d) (ends_in_slash (c == slash) d) (strip_prefix d s)
unfolding subdir_loop slashes ends_in_slash strip_prefix
loop-depth [] [] n c = ground arith
loop-depth (x ∷ s) [] n c = ground arith
loop-depth [] (y ∷ d) n c = ground arith
loop-depth (x ∷ s) (y ∷ d) n c = ground (arith, loop-depth s d (n + 1) y, loop-depth s d n y)

-- `is_subdir` of two strings agrees with a definition by prefixes: 0 unless the directory is a
-- prefix of the other path that ends at a slash of it or at its end, else a number given by the
-- slashes of the directory.
pub is_subdir-depth :
    (dir sub : Bytes)
    → is_subdir (some dir) (some sub)
      ≡ depth (slashes dir) (ends_in_slash false dir) (strip_prefix dir sub)
unfolding is_subdir slashes ends_in_slash strip_prefix
is_subdir-depth [] [] = ground arith
is_subdir-depth [] (x ∷ s) = ground arith
is_subdir-depth (y ∷ d) [] = ground arith
is_subdir-depth (y ∷ d) (x ∷ s) = ground (arith, loop-depth s d 1 y, loop-depth s d 0 y)
