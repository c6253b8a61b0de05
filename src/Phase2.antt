-- ===== src/Phase2.antt =====
-- src/backup_phase2_server.c: for each entry of the list from phase 1 the server decides whether it
-- is unchanged, to be sent whole, or to be sent as a delta. The functions return 0, 1 or -1:
-- `done`, `ended` or `failed`; `fault` stands for a null pointer that is followed.
pub mod Decide
pub mod Delta
pub mod Send
pub mod Receive
pub mod Rounds
use burp.Prelude.{
  ℕ, zero, suc, ◌+◌, ◌-◌, ◌/◌, ◌%◌, Bool, true, false, not, ◌&&◌, ◌||◌, Option, none, some, List,
  [], ◌∷◌, ◌++◌, ltb, leb, ◌==◌, if◌then◌else◌, length,
}
use burp.Prelude.Chars.{Bytes, c_str}
use burp.Cmd.{
  cmd_file, cmd_enc_file, cmd_metadata, cmd_enc_metadata, cmd_efs_file, cmd_vss, cmd_enc_vss,
  cmd_vss_t, cmd_enc_vss_t, cmd_datapth, cmd_stat, cmd_end_file,
}
use burp.Counter.{
  Cntr, do_filecounter, do_filecounter_same, do_filecounter_changed, do_filecounter_deleted,
  do_filecounter_bytes,
}
use burp.Dpth.{dpth_is_compressed}
use burp.Msg.{Ret, done, ended, failed, fault, is_done, Sink}
use burp.Path.{Cmp, less, same, more}
use burp.Prepend.{prepend_s}
use burp.Sbuf.{Sbuf, free_sbuf, filedata}
use burp.Sbuf.Manifest.{sbuf_to_fp}
use burp.Sbuf.Compare.{sbuf_pathcmp}
use burp.Strtoul.{strtoul}

-- The fields of the client's configuration that are used; `currentdata` is the directory of the
-- data of the last backup.
pub record Conf : Type 0 where
  pub librsync : Bool
  pub compression : Bool
  pub currentdata : Bytes

-- The two lists' current entries, the file of unchanged entries, and the counters.
pub record Scan : Type 0 where
  pub cb : Sbuf
  pub p1b : Sbuf
  pub uc : Sink
  pub cntr : Option Cntr

-- "Goes into the unchanged file": an entry that needs no data.
pub new_non_file : Scan → Ret × Scan
new_non_file s =
    let (r, k) = sbuf_to_fp s.p1b true s.uc in
    if not (is_done r)
    then (failed, record s { uc = k })
    else (done, record s { uc = k; cntr = do_filecounter s.p1b.cmd s.cntr; p1b = free_sbuf s.p1b })

pub changed_non_file : Scan → Ret × Scan
changed_non_file s =
    let (r, k) = sbuf_to_fp s.p1b true s.uc in
    if not (is_done r) then (failed, record s { uc = k }) else (
      done,
      record s { uc = k; cntr = do_filecounter_changed s.p1b.cmd s.cntr; p1b = free_sbuf s.p1b },
    )

-- What `new_non_file` returns is not looked at.
pub process_new : Scan → Ret × Scan
process_new s =
    if filedata s.p1b.cmd
    then (
      done,
      record s {
        p1b = record s.p1b { sendstat = s.p1b.sendstat + 1; sendpath = s.p1b.sendpath + 1 };
      },
    )
    else (done, (new_non_file s).1)

abbrev count_bytes : Option Bytes → Option Cntr → Option Cntr
count_bytes none c = c
count_bytes (some e) c = do_filecounter_bytes (strtoul (c_str e)) c

pub process_unchanged_file : Scan → Ret × Scan
process_unchanged_file s =
    let (r, k) = sbuf_to_fp s.cb true s.uc in
    if not (is_done r) then (failed, record s { uc = k; cb = free_sbuf s.cb }) else (
      ended,
      record s {
        uc = k;
        cntr = count_bytes s.cb.endfile (do_filecounter_same s.cb.cmd s.cntr);
        cb = free_sbuf s.cb;
      },
    )

pub process_new_file : Scan → Ret × Scan
unfolding process_new
process_new_file s =
    let (r, s') = process_new s in
    if not (is_done r) then (failed, s') else (ended, record s' { cb = free_sbuf s'.cb })

abbrev pub has_meta : ℕ → Bool
has_meta c =
    c == cmd_enc_metadata
    || c == cmd_metadata
    || c == cmd_vss
    || c == cmd_enc_vss
    || c == cmd_vss_t
    || c == cmd_enc_vss_t
    || c == cmd_efs_file

-- `oldcompressed`.
abbrev pub oldcompressed : Sbuf → Bool
oldcompressed cb = elim cb.datapth [
  | none ↦ false
  | some d ↦ ltb 0 (dpth_is_compressed cb.compression (c_str d))
]

-- "If either old or new is encrypted, or librsync is off, we need to get a new file."
abbrev pub needs_whole : Conf → Scan → Bool
needs_whole conf s =
    not conf.librsync
    || s.cb.cmd == cmd_enc_file
    || s.p1b.cmd == cmd_enc_file
    || has_meta s.cb.cmd
    || has_meta s.p1b.cmd

-- "Get new files if they have switched between compression on or off."
abbrev pub switched : Conf → Scan → Bool
switched conf s =
    (oldcompressed s.cb && not conf.compression) || (not (oldcompressed s.cb) && conf.compression)

-- The old file is opened and the signature job is started: `opens` of the path, and of whether it
-- is compressed, says whether that succeeds. `strtoull` reads the end of the old entry for the length
-- of the blocks.
module _ (opens : Bool → Bytes → Bool) (conf : Conf) where
  start_sig : Scan → Bytes → Ret × Scan
  start_sig s d =
      let s' = record s {
        p1b = record s.p1b { datapth = some d };
        cb = record s.cb { datapth = none };
      } in
      let curpath = prepend_s conf.currentdata (c_str d) in
      if not (opens (ltb 0 (dpth_is_compressed s.cb.compression curpath)) curpath)
      then (failed, s')
      else elim s.cb.endfile [
        | none ↦ (fault, s')
        | some e ↦ (
          done,
          record s' {
            p1b = record s'.p1b {
              sigjob = true;
              senddatapth = s.p1b.senddatapth + 1;
              sendstat = s.p1b.sendstat + 1;
              sendpath = s.p1b.sendpath + 1;
            };
          },
        )
      ]

  -- The old path moves to the new entry.
  pub process_changed_file : Scan → Ret × Scan
  unfolding start_sig
  process_changed_file s = elim s.cb.datapth [ none ↦ (fault, s) | some d ↦ start_sig s d ]

  -- "Otherwise, do the delta stuff (if possible)."
  pub process_delta : Scan → Ret × Scan
  unfolding process_changed_file changed_non_file
  process_delta s =
      let (r, s') = if filedata s.p1b.cmd then process_changed_file s else changed_non_file s in
      if not (is_done r) then (r, s') else (ended, record s' { cb = free_sbuf s'.cb })

  -- Both lists have the entry.
  pub process_both : Scan → Ret × Scan
  unfolding process_new_file process_unchanged_file process_delta
  process_both s =
      let same_mtime = s.cb.statp.mtime == s.p1b.statp.mtime in
      let same_ctime = s.cb.statp.ctime == s.p1b.statp.ctime in
      if not (s.cb.cmd == s.p1b.cmd)
      then process_new_file s
      else if same_mtime && same_ctime
      then process_unchanged_file s
      else if same_mtime
      then (if has_meta s.cb.cmd || has_meta s.p1b.cmd
          then process_new_file s
          else process_unchanged_file s)
      else if needs_whole conf s
      then process_new_file s
      else if switched conf s
      then process_new_file s
      else process_delta s

  unfoldable pub maybe_process_file : Scan → Ret × Scan
  unfolding process_both process_new
  maybe_process_file s = elim (sbuf_pathcmp s.cb s.p1b) [
    | same ↦ process_both s
    | more ↦ let (r, s') = process_new s in (if not (is_done r) then failed else ended, s')
    | less ↦ (done, record s { cntr = do_filecounter_deleted s.cb.cmd s.cntr })
  ]
