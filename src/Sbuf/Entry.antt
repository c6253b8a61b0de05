-- ===== src/Sbuf/Entry.antt =====
-- The entries of a manifest as data, their `struct sbuf`, and the bytes that stand for them.
use burp.Prelude.{ℕ, ◌-◌, ◌<◌, ◌≡◌, Bool, true, false, Option, none, some, [], ◌++◌, length}
use burp.Prelude.Chars.{Bytes, c_str}
use burp.Cmd.{cmd_datapth, cmd_stat, cmd_end_file}
use burp.Msg.RoundTrip.{frame}
use burp.Stat.{Decoded, decode_stat, uint_mod}
use burp.Sbuf.{Sbuf, init_sbuf, cmd_is_link, filedata}

-- An entry of a manifest, as data: the strings of its messages, and the decoded stat data.
pub record Entry : Type 0 where
  pub cmd : ℕ
  pub datapth : Option Bytes
  pub statbuf : Bytes
  pub decoded : Decoded
  pub path : Bytes
  pub linkto : Option Bytes
  pub endfile : Option Bytes

abbrev pub size : Option Bytes → ℕ
size none = 0
size (some b) = length b

-- The `struct sbuf` of an entry, with nothing to be sent and nothing open.
abbrev pub to_sbuf : Entry → Sbuf
to_sbuf e = record init_sbuf {
  cmd = e.cmd;
  path = some e.path;
  plen = length e.path;
  linkto = e.linkto;
  llen = size e.linkto;
  datapth = e.datapth;
  statbuf = some e.statbuf;
  statp = e.decoded.statp;
  winattr = e.decoded.winattr;
  slen = length e.statbuf;
  compression = e.decoded.compression;
  endfile = e.endfile;
  elen = size e.endfile;
}

-- A string is there exactly when it should be, and fits a message.
abbrev pub Present : Bool → Option Bytes → Type 0
Present true none = ⊥
Present true (some b) = length b < 65536
Present false none = Unit
Present false (some b) = ⊥

-- A data path is a C string that fits a message.
abbrev pub IsDatapth : Option Bytes → Type 0
IsDatapth none = Unit
IsDatapth (some d) = (length d < 65536) × (c_str d ≡ d)

pub record IsEntry (e : Entry) : Type 0 where
  pub cmd_pos : 0 < e.cmd
  pub stat_lt : length e.statbuf < 65536
  pub path_lt : length e.path < 65536
  pub datapth_string : IsDatapth e.datapth
  pub link_present : Present (cmd_is_link e.cmd) e.linkto
  pub end_present : Present (filedata e.cmd) e.endfile
  pub decodes : decode_stat (c_str e.statbuf) 0 (uint_mod - 1) ≡ some e.decoded

abbrev pub frame? : ℕ → Option Bytes → Bytes
frame? cmd none = []
frame? cmd (some b) = frame cmd b

-- The messages of an entry.
abbrev pub messages : Entry → Bytes
messages e =
    frame? cmd_datapth e.datapth
    ++ (frame cmd_stat e.statbuf
        ++ (frame e.cmd e.path ++ (frame? e.cmd e.linkto ++ frame? cmd_end_file e.endfile)))
