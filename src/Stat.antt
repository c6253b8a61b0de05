-- ===== src/Stat.antt =====
-- src/attribs.c: `encode_stat` and `decode_stat`, as built on Linux: no `HAVE_WIN32`, and no
-- `HAVE_CHFLAGS`. A 64-bit field of `struct stat` is a number below 2 ^ 64, signed or not; the
-- 32-bit ones (mode, uid, gid, and the `int` compression) are below 2 ^ 32.
pub mod RoundTrip
use burp.Prelude.{
  ℕ, ◌+◌, ◌-◌, ◌%◌, ◌^◌, ◌<◌, Bool, true, false, ◌&&◌, ◌||◌, Option, none, some, List, [], ◌∷◌,
  ◌++◌, ltb, ◌==◌, if◌then◌else◌, ◌>>=◌,
}
use burp.Prelude.Chars.{Bytes}
use burp.Base64.{to_base64, from_base64}

pub record Stat : Type 0 where
  pub dev : ℕ
  pub ino : ℕ
  pub mode : ℕ
  pub nlink : ℕ
  pub uid : ℕ
  pub gid : ℕ
  pub rdev : ℕ
  pub size : ℕ
  pub blksize : ℕ
  pub blocks : ℕ
  pub atime : ℕ
  pub mtime : ℕ
  pub ctime : ℕ

abbrev pub uint_mod : ℕ
uint_mod = 2 ^ 32

-- The conversion of an `int` to `int64_t`.
abbrev pub sign_extend : ℕ → ℕ
sign_extend c = if ltb c (2 ^ 31) then c else c + (2 ^ 64 - 2 ^ 32)

-- The fields that `encode_stat` writes, with the placeholders for the flags and for `winattr`.
abbrev fields : Stat → ℕ → List ℕ
fields st compression =
    st.dev
    ∷ st.ino
    ∷ st.mode
    ∷ st.nlink
    ∷ st.uid
    ∷ st.gid
    ∷ st.rdev
    ∷ st.size
    ∷ st.blksize
    ∷ st.blocks
    ∷ st.atime
    ∷ st.mtime
    ∷ st.ctime
    ∷ 0
    ∷ 0
    ∷ sign_extend compression
    ∷ []

-- The fields, separated by spaces.
pub join : List ℕ → Bytes
join [] = []
join (v ∷ []) = (to_base64 v).1
join (v ∷ w ∷ vs) = (to_base64 v).1 ++ (b' ' ∷ join (w ∷ vs))

unfoldable pub encode_stat : Stat → ℕ → ℕ → Bytes
unfolding join
encode_stat st winattr compression = join (fields st compression)

-- `p++`; `none` is a step behind the NUL.
abbrev step : Bytes → Option Bytes
step [] = none
step (c ∷ p) = some p

-- `p++; p += from_base64(&val, p);`
field : Bytes → Option (ℕ × Bytes)
field p = do q ← step p; from_base64 q

-- `*p == ' ' || (*p != 0 && *(p+1) == ' ')`
abbrev more_fields : Bytes → Bool
more_fields [] = false
more_fields (c ∷ []) = c == b' '
more_fields (c ∷ d ∷ p) = c == b' ' || d == b' '

abbrev at_end : Bytes → Bool
at_end [] = true
at_end (c ∷ p) = false

-- The three results of `decode_stat`.
pub record Decoded : Type 0 where
  pub statp : Stat
  pub winattr : ℕ
  pub compression : ℕ

compression_part : Decoded → Bytes → Option Decoded
unfolding field
compression_part d p =
    if more_fields p
    then (do
      q ← step p
      if at_end q
          then some d
          else do got ← from_base64 q; some (record d { compression = got.0 % uint_mod }))
    else some (record d { compression = uint_mod - 1 })

winattr_part : Decoded → Bytes → Option Decoded
unfolding compression_part field
winattr_part d p =
    if more_fields p
    then (do got ← field p; compression_part (record d { winattr = got.0 }) got.1)
    else compression_part (record d { winattr = 0 }) p

-- The user flags are read and dropped.
flags_part : Decoded → Bytes → Option Decoded
unfolding winattr_part field
flags_part d p =
    if more_fields p
    then (do q ← step p; if at_end q then some d else do got ← from_base64 q; winattr_part d got.1)
    else winattr_part d p

-- `winattr` and `compression` keep their values where the function returns early. `none` is a read
-- outside the string or the tables.
unfoldable pub decode_stat : Bytes → ℕ → ℕ → Option Decoded
unfolding flags_part field
decode_stat buf winattr compression = do
  dev ← from_base64 buf
  ino ← field dev.1
  mode ← field ino.1
  nlink ← field mode.1
  uid ← field nlink.1
  gid ← field uid.1
  rdev ← field gid.1
  size ← field rdev.1
  blksize ← field size.1
  blocks ← field blksize.1
  atime ← field blocks.1
  mtime ← field atime.1
  ctime ← field mtime.1
  let st : Stat = record {
    dev = dev.0;
    ino = ino.0;
    mode = mode.0 % uint_mod;
    nlink = nlink.0;
    uid = uid.0 % uint_mod;
    gid = gid.0 % uint_mod;
    rdev = rdev.0;
    size = size.0;
    blksize = blksize.0;
    blocks = blocks.0;
    atime = atime.0;
    mtime = mtime.0;
    ctime = ctime.0;
  }
  flags_part (record { statp = st; winattr = winattr; compression = compression }) ctime.1
