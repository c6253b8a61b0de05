-- ===== src/Sbuf/Compare.antt =====
-- `sbuf_pathcmp` of src/sbuf.c.
pub mod Order
use burp.Prelude.{
  ℕ, ◌≡◌, ◌≢◌, refl, Bool, true, false, ◌||◌, Option, none, some, List, [], ◌∷◌, arith, ◌==◌,
  if◌then◌else◌,
}
use burp.Prelude.Chars.{Bytes, c_str}
use burp.Cmd.{cmd_metadata, cmd_enc_metadata, cmd_vss, cmd_enc_vss, cmd_vss_t, cmd_enc_vss_t}
use burp.Path.{Cmp, less, same, more, pathcmp}
use burp.Sbuf.{Sbuf}

abbrev pub is_meta : ℕ → Bool
is_meta c = c == cmd_metadata || c == cmd_enc_metadata

abbrev pub is_vss : ℕ → Bool
is_vss c = c == cmd_vss || c == cmd_enc_vss

abbrev pub is_vss_t : ℕ → Bool
is_vss_t c = c == cmd_vss_t || c == cmd_enc_vss_t

-- The part of `sbuf_pathcmp` for entries with the same path.
unfoldable pub cmd_order : ℕ → ℕ → Cmp
cmd_order a b =
    if is_meta a
    then (if is_meta b then same else more)
    else if is_vss a
    then (if is_vss b then same else less)
    else if is_vss_t a
    then (if is_vss_t b then same else more)
    else if is_meta b
    then less
    else if is_vss b
    then more
    else if is_vss_t b
    then less
    else same

abbrev string : Option Bytes → Option Bytes
string none = none
string (some b) = some (c_str b)

unfoldable pub sbuf_pathcmp : Sbuf → Sbuf → Cmp
unfolding cmd_order c_str
sbuf_pathcmp a b = elim (pathcmp (string a.path) (string b.path)) [
  | less ↦ less
  | same ↦ cmd_order a.cmd b.cmd
  | more ↦ more
]
