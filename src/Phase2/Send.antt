-- ===== src/Phase2/Send.antt =====
-- `do_stuff_to_send` of src/backup_phase2_server.c: what is flagged in the current entry goes into
-- the write buffer, as far as there is space; the call is repeated until nothing is left.
pub mod Order
use burp.Prelude.{
  ℕ, ◌+◌, Bool, true, false, not, ◌&&◌, Option, none, some, List, [], ◌∷◌, ◌==◌, if◌then◌else◌,
  length,
}
use burp.Prelude.Chars.{Bytes, c_str, codes}
use burp.Cmd.{cmd_datapth, cmd_stat, cmd_end_file}
use burp.Msg.{Ret, done, ended, failed, fault, is_done}
use burp.Net.{append_all}
use burp.Sbuf.{Sbuf}

-- What the functions change: the entry, the write buffer, and the path that was asked for last.
pub record Sending : Type 0 where
  pub p1b : Sbuf
  pub writebuf : Bytes
  pub last_requested : Option Bytes

abbrev pub bytes_of : Option Bytes → Bytes
bytes_of none = []
bytes_of (some b) = b

abbrev pub is_null : Option Bytes → Bool
is_null none = true
is_null (some _) = false

-- A part: `done` when it is finished, `ended` when there is no space (`return 1`), or the `fault` of
-- a null pointer; and the state.
abbrev pub Part : Type 0
Part = Sending → Ret × Sending

pub send_datapth : Part
send_datapth s =
    let d = c_str (bytes_of s.p1b.datapth) in
    let (fits, w) = append_all cmd_datapth d (length d) s.writebuf in
    if s.p1b.senddatapth == 0
    then (done, s)
    else if is_null s.p1b.datapth
    then (fault, s)
    else if not fits
    then (ended, s)
    else (done, record s { writebuf = w; p1b = record s.p1b { senddatapth = 0 } })

pub send_stat : Part
send_stat s =
    let (fits, w) = append_all cmd_stat (bytes_of s.p1b.statbuf) s.p1b.slen s.writebuf in
    if s.p1b.sendstat == 0
    then (done, s)
    else if not fits
    then (ended, s)
    else if is_null s.p1b.statbuf && not (s.p1b.slen == 0)
    then (fault, s)
    else (done, record s { writebuf = w; p1b = record s.p1b { sendstat = 0 } })

pub send_path : Part
send_path s =
    let (fits, w) = append_all s.p1b.cmd (bytes_of s.p1b.path) s.p1b.plen s.writebuf in
    if s.p1b.sendpath == 0
    then (done, s)
    else if not fits
    then (ended, s)
    else if is_null s.p1b.path
    then (fault, s)
    else (
      done,
      record s {
        writebuf = w;
        p1b = record s.p1b { sendpath = 0 };
        last_requested = some (c_str (bytes_of s.p1b.path));
      },
    )

-- What a part that is not finished returns is returned.
infixl 5 ◌>>◌
abbrev pub ◌>>◌ : Part → Part → Part
◌>>◌ m n s = let (r, s') = m s in if is_done r then n s' else (r, s')

-- The first three parts.
unfoldable pub send_flagged : Part
unfolding send_datapth send_stat send_path
send_flagged = do send_datapth; send_stat; send_path

-- What `rs_async` returns.
pub data RsResult : Type 0 where
  rs_done rs_blocked rs_running rs_error : RsResult

-- The end of the signature.
pub send_end : Sending → Ret × Sending
send_end s =
    let e = codes "endfile" in
    let (fits, w) = append_all cmd_end_file e (length e) s.writebuf in
    if s.p1b.sendendofsig == 0
    then (done, s)
    else if not fits
    then (ended, s)
    else (done, record s { writebuf = w; p1b = record s.p1b { sendendofsig = 0 } })

-- `rs` is the result of `rs_async`, and the write buffer behind it.
send_sig : RsResult × Bytes → Sending → Ret × Sending
unfolding send_end
send_sig (r, w) s =
    let s' = record s { writebuf = w } in
    if s.p1b.sigjob && s.p1b.sendendofsig == 0
    then elim r [
      | rs_done ↦
          send_end (record s' { p1b = record s.p1b { sendendofsig = s.p1b.sendendofsig + 1 } })
      | rs_blocked ↦ (ended, s')
      | rs_running ↦ (ended, s')
      | rs_error ↦ (failed, s')
    ]
    else send_end s

unfoldable pub do_stuff_to_send : (Bytes → RsResult × Bytes) → Sending → Ret × Sending
unfolding send_flagged send_sig
do_stuff_to_send rs_async s =
    let (r, s') = send_flagged s in
    if not (is_done r) then (r, s') else send_sig (rs_async s'.writebuf) s'
