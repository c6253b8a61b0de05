-- ===== src/Sbuf/Fill.antt =====
-- Reading an entry: `async_read_stat` of src/asyncio.c, `do_sbuf_fill_from_file` and
-- `do_sbuf_fill_from_net` of src/sbuf.c.
pub mod Reads
use burp.Prelude.{
  ℕ, zero, suc, ◌+◌, Bool, true, false, not, ◌&&◌, ◌||◌, Option, none, some, List, [], ◌∷◌, ◌==◌,
  if◌then◌else◌, length,
}
use burp.Prelude.Chars.{Bytes, c_str}
use burp.Cmd.{cmd_datapth, cmd_stat, cmd_error, cmd_warning, cmd_end_file}
use burp.Counter.{Cntr, do_filecounter}
use burp.Msg.{Ret, done, ended, failed, fault, is_done, Stream, Msg, async_read_fp}
use burp.Stat.{decode_stat}
use burp.Sbuf.{Sbuf, cmd_is_link, filedata, ends_phase}

abbrev bytes : Option Bytes → Bytes
bytes none = []
bytes (some b) = b

-- A message of the stat data: `decode_stat`, and the fields that are set behind it.
unfoldable pub take_stat : Option Bytes → Msg → Sbuf → Ret × Sbuf
take_stat d m sb = elim (decode_stat (c_str (bytes m.buf)) sb.winattr sb.compression) [
  | none ↦ (fault, sb)
  | some got ↦ (
    done,
    record sb {
      statp = got.statp;
      winattr = got.winattr;
      compression = got.compression;
      statbuf = m.buf;
      slen = m.len;
      datapth = d;
    },
  )
]

-- `async_read_stat` on a file; `d` is the data path read so far. Each round takes at least six
-- bytes, so a round for each byte of the file is enough.
pub stat_loop : ℕ → Option Bytes → Msg → Sbuf → Stream → Ret × Sbuf × Stream
stat_loop zero d m sb st = (failed, sb, st)
stat_loop (suc f) d m sb st =
    let (r, m', st') = async_read_fp m st in
    let rest = stat_loop f m'.buf (record m' { buf = none }) sb st' in
    let (s, sb') = take_stat d m' sb in
    if not (is_done r)
    then (r, sb, st')
    else if m'.cmd == cmd_datapth
    then rest
    else if m'.cmd == cmd_stat
    then (s, sb', st')
    else if ends_phase m'.cmd (bytes m'.buf)
    then (ended, sb, st')
    else (failed, sb, st')

unfoldable pub read_stat_file : Sbuf → Stream → Ret × Sbuf × Stream
unfolding stat_loop
read_stat_file sb st =
    stat_loop (length st.unread + 1) none (record { cmd = cmd_error; buf = none; len = 0 }) sb st

-- The second message of a link.
pub read_link : Sbuf → Stream → Ret × Sbuf × Stream
read_link sb st =
    let (r, m, st') = async_read_fp (record { cmd = 0; buf = sb.linkto; len = sb.llen }) st in
    let sb' = record sb { linkto = m.buf; llen = m.len } in
    if not (is_done r)
    then (r, sb', st')
    else (if not (cmd_is_link m.cmd) then failed else done, sb', st')

-- The message behind the data of a file.
pub read_endfile : Sbuf → Stream → Ret × Sbuf × Stream
read_endfile sb st =
    let (r, m, st') = async_read_fp (record { cmd = 0; buf = sb.endfile; len = sb.elen }) st in
    let sb' = record sb { endfile = m.buf; elen = m.len } in
    if not (is_done r)
    then (r, sb', st')
    else (if not (m.cmd == cmd_end_file) then failed else done, sb', st')

unfoldable pub read_path : Bool → Sbuf → Stream → Ret × Sbuf × Stream
unfolding read_link read_endfile
read_path phase1 sb st =
    let (r, m, st') = async_read_fp (record { cmd = sb.cmd; buf = sb.path; len = sb.plen }) st in
    let sb' = record sb { cmd = m.cmd; path = m.buf; plen = m.len } in
    if not (is_done r)
    then (r, sb', st')
    else if cmd_is_link sb'.cmd
    then read_link sb' st'
    else if not phase1 && filedata sb'.cmd
    then read_endfile sb' st'
    else (done, sb', st')

unfoldable pub do_sbuf_fill_from_file : Bool → Sbuf → Stream → Ret × Sbuf × Stream
do_sbuf_fill_from_file phase1 sb st =
    let (r, sb', st') = read_stat_file sb st in
    if not (is_done r) then (r, sb', st') else read_path phase1 sb' st'

-- `sbuf_fill` and `sbuf_fill_phase1` with a file.
unfoldable pub sbuf_fill : Sbuf → Stream → Ret × Sbuf × Stream
sbuf_fill = do_sbuf_fill_from_file false

unfoldable pub sbuf_fill_phase1 : Sbuf → Stream → Ret × Sbuf × Stream
sbuf_fill_phase1 = do_sbuf_fill_from_file true

-- The messages that will arrive from the network; behind them the connection fails.
abbrev pub Inbox : Type 0
Inbox = List (ℕ × Bytes)

-- `async_read`: a destination that is set already stops the wait at once.
unfoldable pub async_read : Msg → Inbox → Ret × Msg × Inbox
async_read m inbox = elim m.buf [
  | some b ↦ (done, m, inbox)
  | none ↦ elim inbox [
    | [] ↦ (failed, m, [])
    | (c, b) ∷ rest ↦ (done, record { cmd = c; buf = some b; len = length b }, rest)
  ]
]

-- `async_read_stat` on the network: warnings are counted and skipped.
unfoldable pub read_stat_net :
    Option Bytes → Sbuf → Option Cntr → Inbox → Ret × Sbuf × Option Cntr × Inbox
read_stat_net d sb cntr [] = (failed, sb, cntr, [])
read_stat_net d sb cntr ((c, b) ∷ inbox) =
    let warned = read_stat_net d sb (do_filecounter c cntr) inbox in
    let with_path = read_stat_net (some b) sb cntr inbox in
    let (s, sb') = take_stat d (record { cmd = c; buf = some b; len = length b }) sb in
    if c == cmd_warning
    then warned
    else if c == cmd_datapth
    then with_path
    else if c == cmd_stat
    then (s, sb', cntr, inbox)
    else if ends_phase c b
    then (ended, sb, cntr, inbox)
    else (failed, sb, cntr, inbox)

unfoldable pub read_link_net : Sbuf → Option Cntr → Inbox → Ret × Sbuf × Option Cntr × Inbox
read_link_net sb cntr inbox =
    let (r, m, inbox') = async_read (record { cmd = 0; buf = sb.linkto; len = sb.llen }) inbox in
    let sb' = record sb { linkto = m.buf; llen = m.len } in
    if not (is_done r)
    then (r, sb', cntr, inbox')
    else (if not (cmd_is_link m.cmd) then failed else done, sb', cntr, inbox')

unfoldable pub read_path_net : Sbuf → Option Cntr → Inbox → Ret × Sbuf × Option Cntr × Inbox
unfolding read_link_net
read_path_net sb cntr inbox =
    let (r, m, inbox') = async_read (record { cmd = sb.cmd; buf = sb.path; len = sb.plen }) inbox in
    let sb' = record sb { cmd = m.cmd; path = m.buf; plen = m.len } in
    if not (is_done r)
    then (r, sb', cntr, inbox')
    else if cmd_is_link sb'.cmd
    then read_link_net sb' cntr inbox'
    else (done, sb', cntr, inbox')

unfoldable pub do_sbuf_fill_from_net : Sbuf → Option Cntr → Inbox → Ret × Sbuf × Option Cntr × Inbox
unfolding read_stat_net read_path_net async_read
do_sbuf_fill_from_net sb cntr inbox =
    let (r, sb', cntr', inbox') = read_stat_net none sb cntr inbox in
    if not (is_done r) then (r, sb', cntr', inbox') else read_path_net sb' cntr' inbox'
