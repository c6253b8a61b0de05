-- ===== src/Sbuf/Compare/Order.antt =====
-- The order of `sbuf_pathcmp` of src/sbuf.c.
use burp.Prelude.{
  ℕ, ◌≡◌, refl, ◌∙◌, ap, Bool, true, false, ◌&&◌, ◌||◌, Option, none, some, All, arith,
}
use burp.Prelude.Chars.{Bytes, c_str}
use burp.Path.{Cmp, less, same, more, pathcmp}
use burp.Path.Order.{IsByte, opposite, pathcmp-opposite, pathcmp_refl}
use burp.Sbuf.{Sbuf}
use burp.Sbuf.Compare.{is_meta, is_vss_t, cmd_order, string, sbuf_pathcmp}

-- One of the two is metadata, the other VSS data that follows a file.
abbrev pub clash : ℕ → ℕ → Bool
clash a b = (is_meta a && is_vss_t b) || (is_vss_t a && is_meta b)

cmd_order-opposite : (a b : ℕ) → clash a b ≡ false → cmd_order b a ≡ opposite (cmd_order a b)
unfolding cmd_order
cmd_order-opposite a b h = ground arith

abbrev pub IsString : Option Bytes → Type 0
IsString none = Unit
IsString (some b) = All IsByte (c_str b)

string-opposite :
    (a b : Option Bytes)
    → IsString a
    → IsString b
    → pathcmp (string b) (string a) ≡ opposite (pathcmp (string a) (string b))
unfolding pathcmp
string-opposite none none ha hb = refl
string-opposite none (some b) ha hb = refl
string-opposite (some a) none ha hb = refl
string-opposite (some a) (some b) ha hb = pathcmp-opposite (c_str a) (c_str b) ha hb

by_path : Cmp → Cmp → Cmp
by_path p c = elim p [ less ↦ less | same ↦ c | more ↦ more ]

by_path-opposite : (p c : Cmp) → by_path (opposite p) (opposite c) ≡ opposite (by_path p c)
unfolding by_path
by_path-opposite less c = refl
by_path-opposite same c = refl
by_path-opposite more c = refl

-- For entries whose paths are byte strings, and of which not one is metadata and the other VSS
-- data that follows a file, `sbuf_pathcmp` with the arguments swapped gives the opposite answer.
pub sbuf_pathcmp-opposite :
    (a b : Sbuf)
    → IsString a.path
    → IsString b.path
    → clash a.cmd b.cmd ≡ false
    → sbuf_pathcmp b a ≡ opposite (sbuf_pathcmp a b)
unfolding sbuf_pathcmp by_path
sbuf_pathcmp-opposite a b ha hb h =
    ap (λ p. by_path p (cmd_order b.cmd a.cmd)) (string-opposite a.path b.path ha hb)
    ∙ ap (by_path (opposite (pathcmp (string a.path) (string b.path))))
        (cmd_order-opposite a.cmd b.cmd h)
    ∙ by_path-opposite (pathcmp (string a.path) (string b.path)) (cmd_order a.cmd b.cmd)

string_refl : (a : Option Bytes) → pathcmp (string a) (string a) ≡ same
unfolding pathcmp
string_refl none = refl
string_refl (some a) = pathcmp_refl (c_str a)

order-clash :
    (a b : ℕ)
    → is_meta a ≡ true
    → is_vss_t b ≡ true
    → (cmd_order a b ≡ more) × (cmd_order b a ≡ more)
unfolding cmd_order
order-clash a b h k = (ground arith, ground arith)

-- For two entries with the same path, the first metadata and the second VSS data that follows a
-- file, `sbuf_pathcmp` answers in both orders that its first argument comes later.
pub sbuf_pathcmp_clash :
    (a b : Sbuf)
    → a.path ≡ b.path
    → is_meta a.cmd ≡ true
    → is_vss_t b.cmd ≡ true
    → (sbuf_pathcmp a b ≡ more) × (sbuf_pathcmp b a ≡ more)
unfolding sbuf_pathcmp by_path
sbuf_pathcmp_clash a b e h k =
    let r : pathcmp (string a.path) (string b.path) ≡ same = rw e (string_refl b.path) in
    let l : pathcmp (string b.path) (string a.path) ≡ same = rw e (string_refl b.path) in
    let (x, y) = order-clash a.cmd b.cmd h k in
    (
      ap (λ p. by_path p (cmd_order a.cmd b.cmd)) r ∙ x,
      ap (λ p. by_path p (cmd_order b.cmd a.cmd)) l ∙ y,
    )
