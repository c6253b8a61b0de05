-- ===== src/Phase1/Fill.antt =====
-- The list of phase 1: what `sbuf_fill_phase1` reads of the messages of its entries.
use mathlib.Core.List.{append_assoc}
use burp.Prelude.{
  ◌-◌, ◌<◌, ◌≡◌, refl, ap, ◌∙◌, Bool, true, false, Option, none, some, [], ◌++◌, arith,
  if◌then◌else◌, length,
}
use burp.Prelude.Chars.{Bytes}
use burp.Cmd.{cmd_stat}
use burp.Msg.{done}
use burp.Msg.RoundTrip.{frame}
use burp.Sbuf.{init_sbuf, cmd_is_link, filedata}
use burp.Sbuf.Entry.{Entry, size, to_sbuf, Present, IsEntry, frame?}
use burp.Stat.{decode_stat, uint_mod}
use burp.Prelude.Chars.{c_str}
use burp.Sbuf.Fill.{sbuf_fill_phase1, read_path, read_stat_file}
use burp.Sbuf.Fill.Reads.{
  read_path-frame, after_stat, read_stat, read_link-frame, Present-none, Present-some, fill-parts,
}

-- An entry of the list of phase 1 has no data path and no end of a file.
pub record IsScanned (e : Entry) : Type 0 where
  pub cmd_pos : 0 < e.cmd
  pub stat_lt : length e.statbuf < 65536
  pub path_lt : length e.path < 65536
  pub no_datapth : e.datapth ≡ none
  pub no_end : e.endfile ≡ none
  pub link_present : Present (cmd_is_link e.cmd) e.linkto
  pub decodes : decode_stat (c_str e.statbuf) 0 (uint_mod - 1) ≡ some e.decoded

-- The messages of an entry in the list of phase 1.
abbrev pub scanned : Entry → Bytes
scanned e = frame cmd_stat e.statbuf ++ (frame e.cmd e.path ++ frame? e.cmd e.linkto)

-- The same with an end, where there has to be one in a manifest.
unfoldable pub ended_entry : Entry → Entry
ended_entry e = record e { endfile = if filedata e.cmd then some [] else none }

pub ended_entry-IsEntry : (e : Entry) → IsScanned e → IsEntry (ended_entry e)
unfolding ended_entry
ended_entry-IsEntry e h = record {
  cmd_pos = h.cmd_pos;
  stat_lt = h.stat_lt;
  path_lt = h.path_lt;
  datapth_string = rw h.no_datapth tt;
  link_present = h.link_present;
  end_present = present (filedata e.cmd);
  decodes = h.decodes;
}
  where
    present : (there : Bool) → Present there (if there then some [] else none)
    present true = omega arith
    present false = tt

pub scanned_sbuf :
    (e : Entry)
    → IsScanned e
    → record (to_sbuf e) {
      datapth = none;
      linkto = e.linkto;
      llen = size e.linkto;
      endfile = none;
      elen = 0;
    }
      ≡ to_sbuf e
scanned_sbuf e h = rw (h.no_datapth, h.no_end) refl

module _ (e : Entry) (h : IsScanned e) (rest : Bytes) (b : Bool) where
  read_stat_part :
      (tail : Bytes)
      → read_stat_file init_sbuf (record { unread = frame cmd_stat e.statbuf ++ tail; broken = b })
        ≡ (done, after_stat none e, record { unread = tail; broken = b })
  unfolding ended_entry after_stat
  read_stat_part tail =
      let r = read_stat (ended_entry e) (ended_entry-IsEntry e h) tail b in rw h.no_datapth at r

  read_link_part :
      (l : Option Bytes)
      → Present (cmd_is_link e.cmd) l
      → read_path true
          (after_stat none e)
          (record { unread = frame e.cmd e.path ++ (frame? e.cmd l ++ rest); broken = b })
        ≡ (
          done,
          record (to_sbuf e) {
            datapth = none;
            linkto = l;
            llen = size l;
            endfile = none;
            elen = 0;
          },
          record { unread = rest; broken = b },
        )
  unfolding after_stat
  read_link_part none p =
      rw (read_path-frame true _ e.cmd e.path _ b h.cmd_pos h.path_lt) (rw (Present-none _ p) refl)
  read_link_part (some l) p =
      let (link, lt) = Present-some _ l p in
      rw (read_path-frame true _ e.cmd e.path _ b h.cmd_pos h.path_lt)
        (rw link (read_link-frame _ e.cmd l rest b h.cmd_pos link lt))

  -- `sbuf_fill_phase1` reads the messages of an entry of the list of phase 1 back.
  pub fill_phase1-scanned :
      sbuf_fill_phase1 init_sbuf (record { unread = scanned e ++ rest; broken = b })
      ≡ (done, to_sbuf e, record { unread = rest; broken = b })
  unfolding sbuf_fill_phase1
  fill_phase1-scanned =
      let split : scanned e ++ rest
          ≡ frame cmd_stat e.statbuf ++ (frame e.cmd e.path ++ (frame? e.cmd e.linkto ++ rest)) =
        simp append_assoc in
      rw split (
        fill-parts _ true _ (read_stat_part _) (read_link_part e.linkto h.link_present)
        ∙ ap (λ x. (done, x, record { unread = rest; broken = b })) (scanned_sbuf e h))
