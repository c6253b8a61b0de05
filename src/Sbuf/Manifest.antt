-- ===== src/Sbuf/Manifest.antt =====
-- Writing an entry: `sbuf_to_fp`, `sbuf_to_zp`, `sbuf_to_manifest` and `sbuf_to_manifest_phase1`.
-- Which of the two kinds of file it is makes no difference here; both handles null is an error.
pub mod Writes
use burp.Prelude.{
  ℕ, Bool, true, false, ◌&&◌, Option, none, some, List, [], ◌∷◌, if◌then◌else◌, length,
}
use burp.Prelude.Chars.{Bytes, c_str}
use burp.Cmd.{cmd_datapth, cmd_stat, cmd_end_file}
use burp.Msg.{Ret, done, failed, is_done, Sink, send_msg}
use burp.Sbuf.{Sbuf, filedata}

abbrev pub Write : Type 0
Write = Sink → Ret × Sink

-- `if (send(...)) return -1;` and what follows it.
infixl 5 ◌>>◌
abbrev pub ◌>>◌ : Write → Write → Write
◌>>◌ m n k = let (r, k') = m k in if is_done r then n k' else (failed, k')

abbrev pub nothing : Write
nothing k = (done, k)

abbrev pub bytes : Option Bytes → Bytes
bytes none = []
bytes (some b) = b

pub write_datapth : Option Bytes → Write
write_datapth none = nothing
write_datapth (some d) = send_msg cmd_datapth (c_str d) (length (c_str d))

pub write_link : ℕ → Option Bytes → ℕ → Write
write_link cmd none llen = nothing
write_link cmd (some l) llen = send_msg cmd l llen

pub write_end : Bool → Option Bytes → ℕ → Write
write_end false endfile elen = nothing
write_end true endfile elen = send_msg cmd_end_file (bytes endfile) elen

write_entry : Sbuf → Bool → Bytes → Write
unfolding write_datapth write_link write_end
write_entry sb write_endfile path = do
  write_datapth sb.datapth
  send_msg cmd_stat (bytes sb.statbuf) sb.slen
  send_msg sb.cmd path sb.plen
  write_link sb.cmd sb.linkto sb.llen
  write_end (write_endfile && filedata sb.cmd) sb.endfile sb.elen

unfoldable pub sbuf_to_fp : Sbuf → Bool → Write
unfolding write_entry
sbuf_to_fp sb write_endfile = elim sb.path [
  | none ↦ nothing
  | some path ↦ write_entry sb write_endfile path
]

-- A null file is none.
unfoldable pub sbuf_to_manifest : Sbuf → Option Sink → Ret × Option Sink
unfolding sbuf_to_fp
sbuf_to_manifest sb none = (failed, none)
sbuf_to_manifest sb (some k) = let (r, k') = sbuf_to_fp sb true k in (r, some k')

unfoldable pub sbuf_to_manifest_phase1 : Sbuf → Option Sink → Ret × Option Sink
unfolding sbuf_to_fp
sbuf_to_manifest_phase1 sb none = (failed, none)
sbuf_to_manifest_phase1 sb (some k) = let (r, k') = sbuf_to_fp sb false k in (r, some k')
