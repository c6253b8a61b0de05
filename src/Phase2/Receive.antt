-- ===== src/Phase2/Receive.antt =====
-- `do_stuff_to_receive` of src/backup_phase2_server.c and the functions below it: a message from
-- the client, which may be a part of the file that is being received. What goes into the data file
-- itself is not kept, nor is the message that tells the client of a failed write.
pub mod Complete
use burp.Prelude.{
  ℕ, ◌+◌, ◌-◌, ◌/◌, ◌%◌, Bool, true, false, not, ◌&&◌, ◌||◌, Option, none, some, List, [], ◌∷◌, ltb,
  ◌==◌, if◌then◌else◌, length,
}
use burp.Prelude.Chars.{Bytes, c_str, codes, str_eq}
use burp.Cmd.{
  cmd_file, cmd_enc_file, cmd_efs_file, cmd_datapth, cmd_stat, cmd_end_file, cmd_append,
  cmd_warning, cmd_gen, cmd_interrupt,
}
use burp.Counter.{
  Cntr, do_filecounter, do_filecounter_changed, do_filecounter_bytes, do_filecounter_recvbytes,
}
use burp.Dpth.{Dpth, mk_dpth, incr_dpth}
use burp.Msg.{Ret, done, ended, failed, fault, is_done, Sink}
use burp.Prepend.{prepend_s}
use burp.Sbuf.{Sbuf, free_sbuf, filedata}
use burp.Sbuf.Manifest.{sbuf_to_fp}
use burp.Stat.{decode_stat}
use burp.Strtoul.{strtoul}

pub record Receiving : Type 0 where
  pub rb : Sbuf
  pub p2 : Sink
  pub dpth : Dpth
  pub last_requested : Option Bytes
  pub cntr : Option Cntr

-- The configuration of the client, and what the file system answers: whether the data file of this
-- path can be made, the file for a delta opened, the data written, the file closed, and the delta
-- moved into its place.
pub record Files : Type 0 where
  pub directory_tree : Bool
  pub compression : Bool
  pub max_storage_subdirs : ℕ
  pub makes : Bytes → Bool
  pub opens_delta : Bool
  pub writes : Bytes → Bool
  pub closes : Bool
  pub moves_delta : Bool

abbrev pub str : Option Bytes → Bytes
str none = []
str (some b) = c_str b

-- `S_ISDIR`
abbrev is_dir : ℕ → Bool
is_dir mode = mode / 4096 % 16 == 4

-- Whether the file goes into a tree, and the entry with its stat data decoded.
treedata : Sbuf → Option (Bool × Sbuf)
treedata sb = elim (decode_stat (str sb.statbuf) sb.winattr sb.compression) [
  | none ↦ none
  | some d ↦ some (
    not (is_dir d.statp.mode)
        && (sb.cmd == cmd_file || sb.cmd == cmd_enc_file || sb.cmd == cmd_efs_file),
    record sb { statp = d.statp; winattr = d.winattr; compression = d.compression },
  )
]

module _ (fs : Files) where
  -- The data path is chosen and the file made; `incr_dpth` may fail unnoticed.
  make_file : Bool → Sbuf → Receiving → Ret × Receiving
  make_file tree sb s =
      let name =
        if tree
        then prepend_s (codes "t") (str sb.path)
        else mk_dpth fs.compression sb.cmd s.dpth in
      let sb' = record sb { datapth = some name } in
      if not (fs.makes name) then (failed, record s { rb = sb' }) else (
        done,
        record s {
          rb = record sb' { fp = true };
          dpth = if tree then s.dpth else (incr_dpth fs.max_storage_subdirs s.dpth).1;
        },
      )

  pub start_to_receive_new_file : Receiving → Ret × Receiving
  unfolding make_file treedata
  start_to_receive_new_file s =
      if not fs.directory_tree
      then make_file false s.rb s
      else elim (treedata s.rb) [ none ↦ (fault, s) | some (t, sb) ↦ make_file t sb s ]

  pub start_to_receive_delta : Receiving → Ret × Receiving
  start_to_receive_delta s = if not fs.opens_delta then (failed, s) else (
    done,
    record s {
      rb = record s.rb {
        zp = s.rb.zp || fs.compression;
        fp = s.rb.fp || not fs.compression;
        receivedelta = s.rb.receivedelta + 1;
      };
    },
  )

  -- Forget the path that was asked for, if it is this one.
  abbrev pub forget : Bytes → Option Bytes → Option Bytes
  forget p none = none
  forget p (some r) = if str_eq p (c_str r) then none else some r

  -- "Write it to the phase2 file, and free the buffers."
  pub finish_file : Bytes → Receiving → Ret × Receiving
  finish_file buf s =
      let sb = record s.rb { endfile = some buf; elen = length buf } in
      let delta = ltb 0 sb.receivedelta in
      let (r, k) = sbuf_to_fp sb true s.p2 in
      let freed = record s { rb = free_sbuf sb } in
      let counted =
        if delta then do_filecounter_changed sb.cmd s.cntr else do_filecounter sb.cmd s.cntr in
      if not fs.closes || (delta && not fs.moves_delta)
      then (failed, freed)
      else if not (is_done r)
      then (failed, record freed { p2 = k })
      else (
        done,
        record freed {
          p2 = k;
          cntr = do_filecounter_bytes (strtoul (c_str buf)) counted;
          last_requested = forget (str sb.path) s.last_requested;
        },
      )

  -- While a file is written. Nothing written counts as an error too.
  pub receive_data : ℕ → Bytes → Receiving → Ret × Receiving
  unfolding finish_file
  receive_data c buf s =
      if c == cmd_append
      then (
        if fs.writes buf && ltb 0 (length buf) then done else failed,
        record s { cntr = do_filecounter_recvbytes (length buf) s.cntr },
      )
      else if c == cmd_end_file
      then finish_file buf s
      else (failed, s)

  -- "Otherwise, expecting to be told of a file to save."
  pub receive_next : ℕ → Bytes → Receiving → Ret × Receiving
  unfolding start_to_receive_new_file start_to_receive_delta
  receive_next c buf s =
      let named = record s { rb = record s.rb { cmd = c; plen = length buf; path = some buf } } in
      if c == cmd_datapth
      then (done, record s { rb = record s.rb { datapth = some buf } })
      else if c == cmd_stat
      then (done, record s { rb = record s.rb { statbuf = some buf; slen = length buf } })
      else if filedata c
      then (elim s.rb.datapth [
        | none ↦ start_to_receive_new_file named
        | some d ↦ start_to_receive_delta named
      ])
      else if c == cmd_gen && str_eq (c_str buf) (codes "okbackupphase2end")
      then (ended, s)
      else if c == cmd_interrupt
      then (done, record s { last_requested = forget (c_str buf) s.last_requested })
      else (failed, s)

  -- The message that `async_rw` gave, if any.
  unfoldable pub do_stuff_to_receive : Ret × Option (ℕ × Bytes) → Receiving → Ret × Receiving
  unfolding receive_data receive_next
  do_stuff_to_receive (done, none) s = (done, s)
  do_stuff_to_receive (done, some (c, buf)) s =
      if c == cmd_warning
      then (done, record s { cntr = do_filecounter c s.cntr })
      else if s.rb.fp || s.rb.zp
      then receive_data c buf s
      else receive_next c buf s
  do_stuff_to_receive (r, got) s = (failed, s)
