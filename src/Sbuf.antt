-- ===== src/Sbuf.antt =====
-- src/sbuf.c, src/sbuf.h and `async_read_stat` of src/asyncio.c: one entry of a manifest, from the
-- network or a file, and to a file. Allocation does not fail. The buffers and handles of librsync
-- (`rsbuf`, `infb`, `outfb`, `sigfp`, `sigzp`) are left out; of `sigjob`, `fp` and `zp` it is kept
-- whether they are set.
pub mod Fill
pub mod Manifest
pub mod Entry
pub mod Compare
use burp.Prelude.{
  ℕ, ◌-◌, Bool, true, false, not, ◌&&◌, ◌||◌, Option, none, some, List, [], ◌∷◌, ◌++◌, ◌==◌,
  if◌then◌else◌, length,
}
use burp.Prelude.Chars.{Bytes, codes, c_str, str_eq}
use burp.Cmd.{
  cmd_datapth, cmd_stat, cmd_file, cmd_enc_file, cmd_soft_link, cmd_hard_link, cmd_metadata,
  cmd_enc_metadata, cmd_efs_file, cmd_vss, cmd_enc_vss, cmd_vss_t, cmd_enc_vss_t, cmd_gen,
  cmd_error, cmd_warning, cmd_end_file,
}
use burp.Stat.{Stat, uint_mod}

pub record Sbuf : Type 0 where
  pub cmd : ℕ
  pub path : Option Bytes
  pub plen : ℕ
  pub linkto : Option Bytes
  pub llen : ℕ
  pub sendpath : ℕ
  pub datapth : Option Bytes
  pub senddatapth : ℕ
  pub statbuf : Option Bytes
  pub statp : Stat
  pub winattr : ℕ
  pub slen : ℕ
  pub compression : ℕ
  pub sendstat : ℕ
  pub sigjob : Bool
  pub sendendofsig : ℕ
  pub receivedelta : ℕ
  pub fp : Bool
  pub zp : Bool
  pub endfile : Option Bytes
  pub elen : ℕ

abbrev pub zero_stat : Stat
zero_stat = record {
  dev = 0;
  ino = 0;
  mode = 0;
  nlink = 0;
  uid = 0;
  gid = 0;
  rdev = 0;
  size = 0;
  blksize = 0;
  blocks = 0;
  atime = 0;
  mtime = 0;
  ctime = 0;
}

-- `compression` starts as -1.
abbrev pub init_sbuf : Sbuf
init_sbuf = record {
  cmd = cmd_error;
  path = none;
  plen = 0;
  linkto = none;
  llen = 0;
  sendpath = 0;
  datapth = none;
  senddatapth = 0;
  statbuf = none;
  statp = zero_stat;
  winattr = 0;
  slen = 0;
  compression = uint_mod - 1;
  sendstat = 0;
  sigjob = false;
  sendendofsig = 0;
  receivedelta = 0;
  fp = false;
  zp = false;
  endfile = none;
  elen = 0;
}

-- What is freed is not modelled; the entry is as after `init_sbuf`.
abbrev pub free_sbuf : Sbuf → Sbuf
free_sbuf sb = init_sbuf

unfoldable pub cmd_is_link : ℕ → Bool
cmd_is_link cmd = cmd == cmd_soft_link || cmd == cmd_hard_link

abbrev pub sbuf_is_link : Sbuf → Bool
sbuf_is_link sb = cmd_is_link sb.cmd

abbrev pub sbuf_is_endfile : Sbuf → Bool
sbuf_is_endfile sb = sb.cmd == cmd_end_file

-- The commands of entries that carry data: the test in `do_sbuf_fill_from_file`, `sbuf_to_fp` and
-- `sbuf_to_zp`, and `filedata` of src/backup_phase2_server.c.
unfoldable pub filedata : ℕ → Bool
filedata cmd =
    cmd == cmd_file
    || cmd == cmd_enc_file
    || cmd == cmd_metadata
    || cmd == cmd_enc_metadata
    || cmd == cmd_vss
    || cmd == cmd_enc_vss
    || cmd == cmd_vss_t
    || cmd == cmd_enc_vss_t
    || cmd == cmd_efs_file

-- The messages with which a phase ends, as `async_read_stat` tests for them.
unfoldable pub ends_phase : ℕ → Bytes → Bool
unfolding str_eq c_str
ends_phase cmd buf =
    cmd == cmd_gen
    && (str_eq (c_str buf) (codes "backupend")
        || str_eq (c_str buf) (codes "restoreend")
        || str_eq (c_str buf) (codes "phase1end")
        || str_eq (c_str buf) (codes "backupphase2")
        || str_eq (c_str buf) (codes "estimateend"))

-- `add_to_sbuf_arr`, and `del_from_sbuf_arr`, which drops the last entry.
abbrev pub add_to_sbuf_arr : List Sbuf → Sbuf → List Sbuf
add_to_sbuf_arr sblist sb = sblist ++ sb ∷ []

unfoldable pub del_from_sbuf_arr : List Sbuf → List Sbuf
del_from_sbuf_arr [] = []
del_from_sbuf_arr (sb ∷ []) = []
del_from_sbuf_arr (sb ∷ tb ∷ sbs) = sb ∷ del_from_sbuf_arr (tb ∷ sbs)
