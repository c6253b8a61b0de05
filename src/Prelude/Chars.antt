-- ===== src/Prelude/Chars.antt =====
-- Characters and C strings: a `char` is a byte below 256, a C string the list of the bytes before
-- its terminating NUL.
use Prim.Native.Char.{code}
use Prim.Native.String.{String}
use Prim.Native.Nat.{ℕ}
use mathlib.Core.Bool.{Bool, true, false, ◌&&◌}
use mathlib.Core.List.{List, [], ◌∷◌}
use Prim.Native.Nat.{◌≤◌}
use native.Mathlib.Omega.{arith}
use burp.Prelude.Lists.{length}
use burp.Prelude.Tests.{◌==◌, if◌then◌else◌}

abbrev pub Bytes : Type 0
Bytes = List ℕ

-- The bytes of an ASCII literal.
abbrev pub codes : String → Bytes
codes String.[] = []
codes (String.◌∷◌ c s) = code c ∷ codes s

-- The C string that begins at a buffer: what stands before the first NUL.
unfoldable pub c_str : Bytes → Bytes
c_str [] = []
c_str (c ∷ s) = if c == 0 then [] else c ∷ c_str s

pub length-c_str_le : (s : Bytes) → length (c_str s) ≤ length s
unfolding c_str
length-c_str_le [] = omega arith
length-c_str_le (c ∷ s) = let l = length-c_str_le s in ground arith

-- `!strcmp(a, b)` on two C strings.
unfoldable pub str_eq : Bytes → Bytes → Bool
str_eq [] [] = true
str_eq (x ∷ a) (y ∷ b) = x == y && str_eq a b
str_eq _ _ = false
