-- ===== src/Phase1/Sources.antt =====
-- The lists of phase 1 and phase 2 as sources of `forward_sbuf` in src/backup_phase1_server.c.
use mathlib.Core.List.{append_assoc}
use burp.Prelude.{◌≡◌, refl, true, false, none, List, [], ◌++◌, arith, ◌<◌, length, length-append}
use burp.Prelude.Chars.{Bytes}
use burp.Dpth.{set_dpth_from_string}
use burp.Msg.{ended, Stream}
use burp.Sbuf.{Sbuf, init_sbuf}
use burp.Sbuf.Entry.{Entry, IsEntry, messages}
use burp.Sbuf.Fill.{sbuf_fill}
use burp.Sbuf.Fill.Reads.{fill-short, fill-messages}
use burp.Phase3.Merge.{all_messages}
use burp.Phase3.Run.Whole.{length_le}
use burp.Phase1.Fill.{IsScanned, fill_phase1-scanned}
use burp.Phase1.Listed.{scan_list, fill-list_end, length-scan_list}
use burp.Phase1.Forward.{Parses, Source}

pub none-Parses : Parses none
unfolding set_dpth_from_string
none-Parses d = refl

-- The list of phase 1.
abbrev pub scans : Source true IsScanned
scans = record {
  file = λ es. record { unread = scan_list es; broken = false };
  at_end = record { unread = []; broken = false };
  part = init_sbuf;
  gives = λ e es h. fill_phase1-scanned e h (scan_list es) false;
  ends = fill-list_end false init_sbuf;
  part_parses = none-Parses;
  parses = λ e h d. rw (h.no_datapth) (none-Parses d);
  longer = λ es. omega (arith, length-scan_list es);
}

-- An entry of a manifest whose data path is understood.
abbrev pub IsNamed : Entry → Type 0
IsNamed e = IsEntry e × Parses e.datapth

-- What may stand behind the last entry that is whole: `sbuf_fill` finds the end of the file in it.
pub record Tail : Type 0 where
  pub bytes : Bytes
  pub part : Sbuf
  pub ends :
      sbuf_fill init_sbuf (record { unread = bytes; broken = false })
      ≡ (ended, part, record { unread = []; broken = false })
  pub part_parses : Parses part.datapth

-- A few bytes of the header of a message, or none.
pub short_Tail : (bs : Bytes) → length bs < 5 → Tail
short_Tail bs h = record {
  bytes = bs;
  part = init_sbuf;
  ends = fill-short init_sbuf bs false h;
  part_parses = none-Parses;
}

abbrev pub with_tail : Tail → List Entry → Stream
with_tail t es = record { unread = all_messages es ++ t.bytes; broken = false }

abbrev pub manifest : Tail → Source false IsNamed
manifest t = record {
  file = with_tail t;
  at_end = record { unread = []; broken = false };
  part = t.part;
  gives = λ e es h.
      rw (append_assoc (messages e) (all_messages es) t.bytes)
        (fill-messages e h.0 (all_messages es ++ t.bytes) false);
  ends = t.ends;
  part_parses = t.part_parses;
  parses = λ e h. h.1;
  longer = λ es. omega (arith, length_le es, length-append (all_messages es) t.bytes);
}
