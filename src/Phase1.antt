-- ===== src/Phase1.antt =====
-- src/backup_phase1_server.c: the list of files that the client sends is written to a file; a
-- resumed backup reads it again, and looks for the place where the last one was cut off.
pub mod Fill
pub mod Listed
pub mod Counted
pub mod Forward
pub mod Looped
pub mod Sources
pub mod Resume
use burp.Prelude.{
  ℕ, zero, suc, ◌+◌, Bool, true, false, not, ◌&&◌, ◌||◌, Option, none, some, List, [], ◌∷◌, ◌==◌,
  if◌then◌else◌, length,
}
use burp.Prelude.Chars.{Bytes, c_str, codes}
use burp.Cmd.{cmd_file, cmd_enc_file, cmd_metadata, cmd_enc_metadata, cmd_efs_file, cmd_gen}
use burp.Counter.{
  Cntr, do_filecounter, do_filecounter_same, do_filecounter_changed, do_filecounter_bytes,
  do_filecounter_recvbytes,
}
use burp.Dpth.{Dpth, set_dpth_from_string, incr_dpth}
use burp.Msg.{Ret, done, ended, failed, fault, is_done, Stream, Sink, send_msg}
use burp.Path.{less, same, more}
use burp.Sbuf.{Sbuf, init_sbuf, free_sbuf}
use burp.Sbuf.Fill.{sbuf_fill, sbuf_fill_phase1, do_sbuf_fill_from_net, Inbox}
use burp.Sbuf.Manifest.{sbuf_to_fp}
use burp.Sbuf.Compare.{sbuf_pathcmp}
use burp.Strtoul.{strtoul}

-- What phase 1 counts of an entry.
pub count_entry : Sbuf → Option Cntr → Option Cntr
count_entry sb c =
    let counted = do_filecounter sb.cmd c in
    if sb.cmd == cmd_file
      || sb.cmd == cmd_enc_file
      || sb.cmd == cmd_metadata
      || sb.cmd == cmd_enc_metadata
      || sb.cmd == cmd_efs_file
    then do_filecounter_bytes sb.statp.size counted
    else counted

-- The list of phase 1 that is written, and the counters.
pub record Scanning : Type 0 where
  pub p1 : Sink
  pub p1cntr : Option Cntr

-- The end of the list; `says_ok` is whether the reply to the client can be sent.
pub end_phase1 : Bool → Ret → Scanning → Ret × Scanning
end_phase1 says_ok r s =
    let (w, k) = send_msg cmd_gen (codes "phase1end") 9 s.p1 in
    if not says_ok
    then (failed, s)
    else (elim r [ ended ↦ if is_done w then done else failed | _ ↦ failed ], record s { p1 = k })

-- `while(!quit)`; each round takes a message at least, so a round for each and one more are enough.
pub phase1_loop : ℕ → Bool → Inbox → Scanning → Ret × Scanning
unfolding count_entry end_phase1
phase1_loop zero says_ok inbox s = (failed, s)
phase1_loop (suc f) says_ok inbox s =
    let (r, sb, c, inbox') = do_sbuf_fill_from_net init_sbuf s.p1cntr inbox in
    let read = record s { p1cntr = c } in
    let (w, k) = sbuf_to_fp sb false s.p1 in
    let rest = phase1_loop f says_ok inbox' (record { p1 = k; p1cntr = count_entry sb c }) in
    if not (is_done r)
    then end_phase1 says_ok r read
    else if not (is_done w)
    then (failed, record read { p1 = k })
    else rest

-- `closes` and `renames` say whether closing and renaming the temporary file succeed. The list is
-- none where it is not put in place.
finish_phase1 : Bool → Bool → Ret × Scanning → Ret × Option Bytes × Option Cntr
finish_phase1 closes renames (r, s) =
    if is_done r && closes && renames
    then (done, some s.p1.written, s.p1cntr)
    else (failed, none, s.p1cntr)

unfoldable pub backup_phase1_server :
    Bool → Bool → Bool → ℕ → Inbox → Option Cntr → Ret × Option Bytes × Option Cntr
unfolding phase1_loop finish_phase1
backup_phase1_server says_ok closes renames room inbox p1cntr = finish_phase1 closes renames (
    phase1_loop (length inbox + 1) says_ok inbox
      (record { p1 = record { written = []; room = room }; p1cntr = p1cntr }))

-- The loop of `read_phase1`: a round takes bytes from the file, or ends.
pub count_loop : ℕ → Stream → Option Cntr → Ret × Stream × Option Cntr
unfolding count_entry
count_loop zero st c = (failed, st, c)
count_loop (suc f) st c =
    let (r, b, st') = sbuf_fill_phase1 init_sbuf st in
    let rest = count_loop f st' (count_entry b c) in
    elim r [
      | done ↦ rest
      | ended ↦ (done, st', c)
      | failed ↦ (failed, st', c)
      | fault ↦ (fault, st', c)
    ]

unfoldable pub read_phase1 : Stream → Option Cntr → Ret × Stream × Option Cntr
unfolding count_loop
read_phase1 st c = count_loop (length st.unread + 1) st c

-- The arguments of `forward_sbuf` that do not change.
pub record Aim : Type 0 where
  pub target : Option Sbuf
  pub isphase1 : Bool
  pub seekback : Bool
  pub do_counters : Bool
  pub same : Bool

-- Its variables; the position in the file is the stream.
pub record Forwarding : Type 0 where
  pub fp : Stream
  pub b : Sbuf
  pub latest : Sbuf
  pub dpth : Dpth
  pub cntr : Option Cntr

-- `target && sbuf_pathcmp(target, b)<=0`
abbrev pub reached : Option Sbuf → Sbuf → Bool
reached none b = false
reached (some t) b = elim (sbuf_pathcmp t b) [ more ↦ false | less ↦ true | same ↦ true ]

-- `strtoull` of the end of the file, for both counters of bytes.
abbrev count_end : Option Bytes → Option Cntr → Option Cntr
count_end none c = c
count_end (some e) c =
    let n = strtoul (c_str e) in do_filecounter_recvbytes n (do_filecounter_bytes n c)

abbrev count_forward : Aim → Sbuf → Option Cntr → Option Cntr
count_forward aim b c =
    if not aim.do_counters
    then c
    else count_end b.endfile
        (if aim.same then do_filecounter_same b.cmd c else do_filecounter_changed b.cmd c)

-- A round ends the search, or goes on.
pub data Forth : Type 0 where
  halt : Ret → Forwarding → Forth
  onward : Forwarding → Forth

-- What a round does with the entry that was read; `fp` is the file behind it.
pub forward_entry : Aim → Sbuf → Stream → Forwarding → Forth
forward_entry aim b fp s =
    if reached aim.target b
    then halt done (record s { fp = if aim.seekback then s.fp else fp; b = b; latest = init_sbuf })
    else onward (record s { fp = fp; b = init_sbuf; latest = b; cntr = count_forward aim b s.cntr })

-- A round behind the read: "make sure we end up with the highest datapth we can possibly find".
pub forward_got : Aim → Ret × Sbuf × Stream → Forwarding → Forth
unfolding forward_entry
forward_got aim (r, b, fp) s =
    let (ok, dpth) = set_dpth_from_string s.dpth b.datapth in
    let s' = record s { dpth = dpth } in
    let bad = record s' { fp = fp; b = free_sbuf b; latest = init_sbuf } in
    if not ok then halt failed bad else elim r [
      | done ↦ forward_entry aim b fp s'
      | ended ↦ halt done (record s' { fp = fp; b = s.latest })
      | failed ↦ halt failed bad
      | fault ↦ halt fault bad
    ]

-- A round takes bytes from the file, or ends.
pub forward_loop : ℕ → Aim → Forwarding → Ret × Forwarding
unfolding forward_got
forward_loop zero aim s = (failed, s)
forward_loop (suc f) aim s =
    let got = (if aim.isphase1 then sbuf_fill_phase1 else sbuf_fill) s.b s.fp in
    elim (forward_got aim got s) [ halt r s' ↦ (r, s') | onward s' ↦ forward_loop f aim s' ]

unfoldable pub forward_sbuf : Aim → Stream → Dpth → Option Cntr → Ret × Forwarding
unfolding forward_loop
forward_sbuf aim fp dpth cntr =
    forward_loop (length fp.unread + 1) aim
      (record { fp = fp; b = init_sbuf; latest = init_sbuf; dpth = dpth; cntr = cntr })

-- The three files as they are left, the data path, and the counters.
pub record Resumed : Type 0 where
  pub p1 : Stream
  pub p2 : Stream
  pub uc : Stream
  pub dpth : Dpth
  pub p1cntr : Option Cntr
  pub cntr : Option Cntr

-- To the end of the list of phase 2; then again, to the last entry.
abbrev to_end : Aim
to_end = record {
  target = none;
  isphase1 = false;
  seekback = false;
  do_counters = false;
  same = false;
}

abbrev to_last : Sbuf → Aim
to_last b = record to_end { target = some b; do_counters = true }

abbrev to_phase1 : Sbuf → Aim
to_phase1 b = record to_end { target = some b; isphase1 = true }

-- "The unchanged file needs to be positioned just before the found entry".
abbrev to_unchanged : Sbuf → Aim
to_unchanged b = record to_end { target = some b; seekback = true; do_counters = true; same = true }

-- `max_storage_subdirs` and `send_client_counters` are from the configuration; `sends` is whether
-- the counters can be sent. After an error the caller does not use the files.
module _ (max_storage_subdirs : ℕ) (send_client_counters : Bool) (sends : Bool) where
  unfoldable pub do_resume :
      Stream → Stream → Stream → Dpth → Option Cntr → Option Cntr → Ret × Resumed
  unfolding read_phase1 forward_sbuf
  do_resume p1 p2 uc dpth p1cntr cntr =
      let (r0, _, c1) = read_phase1 p1 p1cntr in
      let (r1, f1) = forward_sbuf to_end p2 dpth cntr in
      let (r2, f2) = forward_sbuf (to_last f1.b) p2 f1.dpth f1.cntr in
      let (r3, f3) = forward_sbuf (to_phase1 f2.b) p1 f2.dpth f2.cntr in
      let (r4, f4) = forward_sbuf (to_unchanged f2.b) uc f3.dpth f3.cntr in
      let (r5, d) = incr_dpth max_storage_subdirs f4.dpth in
      let s : Resumed = record {
        p1 = f3.fp;
        p2 = f2.fp;
        uc = f4.fp;
        dpth = d;
        p1cntr = c1;
        cntr = f4.cntr;
      } in
      let bad =
        not (is_done r0)
        || not (is_done r1)
        || not (is_done r2)
        || not (is_done r3)
        || not (is_done r4)
        || not r5
        || (send_client_counters && not sends) in
      (if bad then failed else done, s)
