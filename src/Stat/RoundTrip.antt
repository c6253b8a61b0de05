-- ===== src/Stat/RoundTrip.antt =====
-- `encode_stat` and `decode_stat` of src/attribs.c together.
use mathlib.Core.List.{append-nil}
use burp.Prelude.{
  ℕ, ◌+◌, ◌-◌, ◌*◌, ◌%◌, ◌≤◌, ◌<◌, ◌≡◌, refl, true, false, some, List, [], ◌∷◌, ◌++◌, arith, length,
  length-append,
}
use burp.Prelude.Chars.{Bytes}
use burp.Base64.{to_base64, from_base64, int64_mod}
use burp.Base64.RoundTrip.{from-to_base64, to_base64_le, to_base64_pos}
use burp.Stat.{
  Stat, uint_mod, sign_extend, fields, join, encode_stat, decode_stat, more_fields, at_end,
}

-- The widths of the fields of `struct stat`.
pub record IsStat (st : Stat) : Type 0 where
  pub dev_lt : st.dev < int64_mod
  pub ino_lt : st.ino < int64_mod
  pub mode_lt : st.mode < uint_mod
  pub nlink_lt : st.nlink < int64_mod
  pub uid_lt : st.uid < uint_mod
  pub gid_lt : st.gid < uint_mod
  pub rdev_lt : st.rdev < int64_mod
  pub size_lt : st.size < int64_mod
  pub blksize_lt : st.blksize < int64_mod
  pub blocks_lt : st.blocks < int64_mod
  pub atime_lt : st.atime < int64_mod
  pub mtime_lt : st.mtime < int64_mod
  pub ctime_lt : st.ctime < int64_mod

read_first :
    (v : ℕ) (s : Bytes) → from_base64 ((to_base64 v).1 ++ b' ' ∷ s) ≡ some (v % int64_mod, b' ' ∷ s)
read_first v s = from-to_base64 v (b' ' ∷ s) refl

read_last : (v : ℕ) → from_base64 (to_base64 v).1 ≡ some (v % int64_mod, [])
read_last v = rw append-nil at (from-to_base64 v [] tt)

more_fields-space : (p : Bytes) → more_fields (b' ' ∷ p) ≡ true
more_fields-space [] = refl
more_fields-space (c ∷ p) = refl

at_end-pos : (p : Bytes) → 1 ≤ length p → at_end p ≡ false
at_end-pos [] h = absurd (omega arith)
at_end-pos (c ∷ p) h = refl

at_end-to_base64 : (v : ℕ) (s : Bytes) → at_end ((to_base64 v).1 ++ s) ≡ false
at_end-to_base64 v s =
    at_end-pos ((to_base64 v).1 ++ s)
      (omega (arith, length-append (to_base64 v).1 s, to_base64_pos v))

at_end-last : (v : ℕ) → at_end (to_base64 v).1 ≡ false
at_end-last v = at_end-pos (to_base64 v).1 (to_base64_pos v)

ruleset reading = (read_first, read_last, more_fields-space, at_end-to_base64, at_end-last)

int_of_sign_extend : (c : ℕ) → c < uint_mod → sign_extend c % int64_mod % uint_mod ≡ c
int_of_sign_extend c h = ground arith

-- For a `struct stat` whose fields have the widths of the C types and a compression level of 32
-- bits, decoding the encoded string gives back every field and the level, with `winattr` 0,
-- whatever the two had been before.
pub decode-encode_stat :
    (st : Stat) (w c w' c' : ℕ)
    → IsStat st
    → c < uint_mod
    → decode_stat (encode_stat st w c) w' c'
      ≡ some (record { statp = st; winattr = 0; compression = c })
unfolding encode_stat decode_stat
decode-encode_stat st w c w' c' h k = simp reading (ground (arith, int_of_sign_extend c))

length-sep :
    (v : ℕ) (s : Bytes) (n : ℕ) → length s ≤ n → length ((to_base64 v).1 ++ b' ' ∷ s) ≤ 13 + n
length-sep v s n h = omega (arith, length-append (to_base64 v).1 (b' ' ∷ s), to_base64_le v)

join_le : (vs : List ℕ) → length (join vs) ≤ 13 * length vs - 1
unfolding join
join_le [] = omega arith
join_le (v ∷ []) = omega (arith, to_base64_le v)
join_le (v ∷ w ∷ vs) =
    omega
      (arith, length-sep v (join (w ∷ vs)) (13 * length vs + 12) (omega (arith, join_le (w ∷ vs))))

-- The string of `encode_stat` has at most 207 characters, for every `struct stat`.
pub encode_stat_le : (st : Stat) (w c : ℕ) → length (encode_stat st w c) ≤ 207
unfolding encode_stat
encode_stat_le st w c = join_le (fields st c)
