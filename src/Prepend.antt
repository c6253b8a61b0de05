-- ===== src/Prepend.antt =====
-- src/prepend.c: paths put together.
use burp.Prelude.{◌++◌, [], ◌∷◌, ◌==◌, if◌then◌else◌}
use burp.Prelude.Chars.{Bytes}

-- `prepend` with the separator "/", which an empty name does not get.
prepend : Bytes → Bytes → Bytes
prepend prep [] = prep
prepend prep (c ∷ name) = prep ++ (b'/' ∷ c ∷ name)

-- "Try to avoid getting a double slash in the path."
unfoldable pub prepend_s : Bytes → Bytes → Bytes
unfolding prepend
prepend_s [] fname = fname
prepend_s (p ∷ prep) [] = p ∷ prep
prepend_s (p ∷ prep) (c ∷ name) =
    if c == b'/' then prepend (p ∷ prep) name else prepend (p ∷ prep) (c ∷ name)
