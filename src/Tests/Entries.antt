-- ===== src/Tests/Entries.antt =====
-- Entries, manifests, their merge, and the connection.
use burp.Prelude.{◌-◌, ◌≤◌, ◌≡◌, refl, true, false, some, [], ◌∷◌, ◌++◌, arith, length}
use burp.Prelude.Chars.{Bytes, codes, c_str}
use burp.Cmd.{cmd_gen}
use burp.Stat.{decode_stat, uint_mod}
use burp.Msg.{done}
use burp.Hex.{print_04x, scan_head, scan_04x}
use burp.Path.{pathcmp}
use burp.Path.Order.{opposite}
use burp.Base64.{from_base64}
use burp.Sbuf.{init_sbuf, cmd_is_link, filedata}
use burp.Sbuf.Entry.{to_sbuf, IsEntry, messages}
use burp.Sbuf.Fill.{sbuf_fill}
use burp.Sbuf.Fill.Reads.{fill-messages}
use burp.Sbuf.Manifest.{sbuf_to_fp}
use burp.Sbuf.Manifest.Writes.{sbuf_to_fp-messages}
use burp.Sbuf.Compare.{sbuf_pathcmp}
use burp.Sbuf.Compare.Order.{sbuf_pathcmp-opposite}
use burp.Phase3.{backup_phase3_server}
use burp.Phase3.Merge.{merge, all_messages}
use burp.Phase3.Load.{stream}
use burp.Phase3.Run.Lossless.{Lossless, phase3-Lossless}
use burp.Phase3.Run.Whole.{phase3-merge}
use burp.Net.{parse_readbuf, append_all}
use burp.Net.Framing.{net_frame, parse-net_frame}
use burp.Net.Link.{here, then, append, arrive, parse, InOrder, link-InOrder}
use burp.Tests.{small_statbuf, small_decoded, home, note, link}

small_decodes : decode_stat (c_str small_statbuf) 0 (uint_mod - 1) ≡ some small_decoded
unfolding decode_stat c_str from_base64
small_decodes = refl

pub home-IsEntry : IsEntry home
unfolding cmd_is_link filedata
home-IsEntry = record {
  cmd_pos = omega arith;
  stat_lt = omega arith;
  path_lt = omega arith;
  datapth_string = tt;
  link_present = tt;
  end_present = tt;
  decodes = small_decodes;
}

pub note-IsEntry : IsEntry note
unfolding cmd_is_link filedata c_str
note-IsEntry = record {
  cmd_pos = omega arith;
  stat_lt = omega arith;
  path_lt = omega arith;
  datapth_string = (omega arith, refl);
  link_present = tt;
  end_present = omega arith;
  decodes = small_decodes;
}

link-IsEntry : IsEntry link
unfolding cmd_is_link filedata
link-IsEntry = record {
  cmd_pos = omega arith;
  stat_lt = omega arith;
  path_lt = omega arith;
  datapth_string = tt;
  link_present = omega arith;
  end_present = tt;
  decodes = small_decodes;
}

fill-messages_example :
    sbuf_fill init_sbuf (record { unread = messages note ++ messages link; broken = false })
    ≡ (done, to_sbuf note, record { unread = messages link; broken = false })
fill-messages_example = fill-messages note note-IsEntry (messages link) false

note_fits : length (messages note) ≤ 1000
unfolding print_04x
note_fits = omega arith

sbuf_to_fp-messages_example :
    sbuf_to_fp (to_sbuf note) true (record { written = codes "x"; room = 1000 })
    ≡ (done, record { written = codes "x" ++ messages note; room = 1000 - length (messages note) })
sbuf_to_fp-messages_example =
    sbuf_to_fp-messages note (record { written = codes "x"; room = 1000 }) note-IsEntry note_fits

merge_fits : length (all_messages (merge (home ∷ link ∷ []) (note ∷ []))) ≤ 1000
unfolding merge sbuf_pathcmp pathcmp c_str print_04x
merge_fits = omega arith

phase3-merge_example :
    backup_phase3_server false true true 1000 (stream (home ∷ link ∷ [])) (stream (note ∷ []))
    ≡ record {
      ret = done;
      manifest = some (all_messages (merge (home ∷ link ∷ []) (note ∷ [])));
      removed = true;
    }
phase3-merge_example =
    phase3-merge 1000 (home ∷ link ∷ []) (note ∷ []) (home-IsEntry, (link-IsEntry, tt))
      (note-IsEntry, tt) merge_fits

phase3-Lossless_example :
    Lossless
      (home ∷ link ∷ [])
      (note ∷ [])
      (backup_phase3_server false true true 1000 (stream (home ∷ link ∷ [])) (stream (note ∷ [])))
phase3-Lossless_example =
    phase3-Lossless 1000 (home ∷ link ∷ []) (note ∷ []) (home-IsEntry, (link-IsEntry, tt))
      (note-IsEntry, tt) merge_fits

parse-net_frame_example :
    parse_readbuf (net_frame cmd_gen (codes "ok") ++ codes "c00")
    ≡ (done, some (cmd_gen, codes "ok"), codes "c00")
parse-net_frame_example =
    parse-net_frame cmd_gen (codes "ok") (codes "c00") (omega arith) (omega arith)

abbrev ok_frame : Bytes
ok_frame = net_frame cmd_gen (codes "ok")

-- A message is appended, arrives, and is parsed.
link-InOrder_example : InOrder (record {
  writebuf = [];
  readbuf = [];
  sent = (cmd_gen, codes "ok") ∷ [];
  got = (cmd_gen, codes "ok") ∷ [];
})
unfolding print_04x append_all parse_readbuf scan_head scan_04x c_str
link-InOrder_example =
    link-InOrder
      (record {
        writebuf = [];
        readbuf = [];
        sent = (cmd_gen, codes "ok") ∷ [];
        got = (cmd_gen, codes "ok") ∷ [];
      })
      (then
        (then (then here (append cmd_gen (codes "ok") ok_frame (omega arith, omega arith) refl))
          (arrive 7))
        (parse (cmd_gen, codes "ok") [] refl))

sbuf_pathcmp-opposite_example :
    sbuf_pathcmp (to_sbuf note) (to_sbuf home)
    ≡ opposite (sbuf_pathcmp (to_sbuf home) (to_sbuf note))
unfolding c_str
sbuf_pathcmp-opposite_example =
    sbuf_pathcmp-opposite (to_sbuf home) (to_sbuf note) (ground arith) (ground arith) refl
