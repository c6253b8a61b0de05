-- ===== src/Tests/Resume.antt =====
-- Phase 1, a resumed backup, and the search in the manifest of the last one.
use burp.Prelude.{
  ◌≤◌, ◌≡◌, refl, ap, sym, ◌∙◌, Bool, true, false, Option, none, some, List, [], ◌∷◌, arith, All,
  length,
}
use burp.Prelude.Chars.{Bytes, codes, c_str}
use burp.Dpth.{Dpth, mk_dpth, set_dpth_from_string}
use burp.Dpth.Scan.{set-mk_dpth}
use burp.Cmd.{cmd_file}
use burp.Hex.{print_04x}
use burp.Path.{pathcmp}
use burp.Msg.{Ret, done, Stream}
use burp.Sbuf.{cmd_is_link, filedata, init_sbuf}
use burp.Sbuf.Compare.{sbuf_pathcmp}
use burp.Sbuf.Entry.{Entry, to_sbuf}
use burp.Phase1.{backup_phase1_server, reached, Resumed, read_phase1, do_resume}
use burp.Phase1.Fill.{IsScanned}
use burp.Phase1.Listed.{scan_list, count_list}
use burp.Phase1.Counted.{sent_list, phase1-counted}
use burp.Phase1.Forward.{Parses}
use burp.Phase2.{Conf, Scan, maybe_process_file}
use burp.Phase2.Rounds.{process_entry, rounds, Answer, Backup}
use burp.Phase2.Rounds.Steps.{Holds, open_at, rounds-Holds}
use burp.Phase2.Receive.{Files}
use burp.Phase2.Send.{rs_done}
use burp.Phase2.Rounds.Placed.{Placed, loaded, process_entry-Placed}
use burp.Phase2.Rounds.Left.{Left, process_entry-Left}
use burp.Phase1.Sources.{none-Parses, scans, IsNamed, Tail, with_tail, short_Tail, manifest}
use burp.Phase1.Resume.{Behind, left, resume-positions, resume_skips_first}
use burp.Tests.{home, note}
use burp.Tests.Entries.{home-IsEntry, note-IsEntry}

abbrev scanned_note : Entry
scanned_note = record note { datapth = none; endfile = none }

home-IsScanned : IsScanned home
unfolding cmd_is_link
home-IsScanned = record {
  cmd_pos = omega arith;
  stat_lt = omega arith;
  path_lt = omega arith;
  no_datapth = refl;
  no_end = refl;
  link_present = tt;
  decodes = home-IsEntry.decodes;
}

note-IsScanned : IsScanned scanned_note
unfolding cmd_is_link
note-IsScanned = record {
  cmd_pos = omega arith;
  stat_lt = omega arith;
  path_lt = omega arith;
  no_datapth = refl;
  no_end = refl;
  link_present = tt;
  decodes = note-IsEntry.decodes;
}

abbrev two : List Entry
two = home ∷ scanned_note ∷ []

two-IsScanned : All IsScanned two
two-IsScanned = (home-IsScanned, (note-IsScanned, tt))

two_fit : length (scan_list two) ≤ 1000
unfolding print_04x
two_fit = omega arith

phase1-counted_example :
    (backup_phase1_server true true true 1000 (sent_list two) none
      ≡ (done, some (scan_list two), count_list two none))
    × (read_phase1 (record { unread = scan_list two; broken = false }) none
        ≡ (done, record { unread = []; broken = false }, count_list two none))
phase1-counted_example = phase1-counted 1000 two none two-IsScanned two_fit

-- The power went when two bytes of a header were written.
abbrev cut_off : Tail
cut_off = short_Tail (codes "r0") (omega arith)

abbrev first_dpth : Dpth
first_dpth = record { prim = 0; seco = 0; tert = 0; looped = 0 }

note-name : mk_dpth false cmd_file first_dpth ≡ codes "0000/0000/0000"
unfolding mk_dpth print_04x
note-name = refl

note-Parses : Parses note.datapth
note-Parses d =
    ap (λ p. (set_dpth_from_string d (some p)).0) (sym note-name)
    ∙ ap (λ r. r.0)
        (set-mk_dpth false cmd_file d first_dpth (omega arith, omega arith, omega arith))

note-IsNamed : IsNamed note
note-IsNamed = (note-IsEntry, note-Parses)

home-IsNamed : IsNamed home
home-IsNamed = (home-IsEntry, none-Parses)

-- Phase 2 had the note, and the directory before it was unchanged.
abbrev lists_before : Ret × Resumed
lists_before =
    do_resume 1000 false true (scans.file two) (with_tail cut_off (note ∷ []))
      (with_tail cut_off (home ∷ [])) first_dpth none none

home-Behind : Behind (to_sbuf note) home
unfolding sbuf_pathcmp pathcmp c_str
home-Behind = refl

note-reached : reached (some (to_sbuf note)) (to_sbuf scanned_note) ≡ true
unfolding sbuf_pathcmp pathcmp c_str
note-reached = refl

resume-positions_example :
    (lists_before.1.p1 ≡ scans.file [])
    × (lists_before.1.p2 ≡ with_tail cut_off [])
    × (lists_before.1.uc ≡ left cut_off [])
    × (lists_before.1.p1cntr ≡ count_list two none)
    × (lists_before.0 ≡ done)
resume-positions_example =
    resume-positions 1000 false first_dpth none none cut_off cut_off [] (home ∷ []) (home ∷ []) []
      note scanned_note [] refl two-IsScanned (note-IsNamed, tt) (home-IsNamed, tt) tt
      (home-Behind, tt) note-reached (home-Behind, tt) tt

resume_skips_first_example :
    (do_resume 1000 false true
      (scans.file two)
      (with_tail cut_off [])
      (with_tail cut_off [])
      first_dpth
      none
      none).1.p1
    ≡ scans.file (scanned_note ∷ [])
resume_skips_first_example =
    resume_skips_first 1000 false (with_tail cut_off []) first_dpth none none cut_off home
      (scanned_note ∷ []) two-IsScanned

abbrev old_conf : Conf
old_conf = record { librsync = true; compression = false; currentdata = codes "/data" }

abbrev opens_none : Bool → Bytes → Bool
opens_none compressed path = false

-- The note of the last backup is loaded when the directory comes.
abbrev at_home : Scan
at_home = record {
  cb = to_sbuf note;
  p1b = to_sbuf home;
  uc = record { written = []; room = 1000 };
  cntr = none;
}

abbrev old_rest : Option Stream
old_rest = some ((manifest cut_off).file [])

process_entry-Placed_example :
    Placed
      (manifest cut_off)
      opens_none
      old_conf
      at_home
      (note ∷ [])
      (process_entry opens_none old_conf at_home old_rest)
process_entry-Placed_example =
    process_entry-Placed (manifest cut_off) opens_none old_conf at_home old_rest (note ∷ [])
      (note-IsNamed, tt) (loaded note [] refl refl refl)

home_done : (process_entry opens_none old_conf at_home old_rest).0 ≡ done
unfolding process_entry maybe_process_file sbuf_pathcmp pathcmp filedata c_str
home_done = refl

process_entry-Left_example :
    Left
      (manifest cut_off)
      at_home
      (note ∷ [])
      (process_entry opens_none old_conf at_home old_rest).1
      (process_entry opens_none old_conf at_home old_rest).2
process_entry-Left_example =
    process_entry-Left (manifest cut_off) opens_none old_conf at_home old_rest (note ∷ [])
      (note-IsNamed, tt) (loaded note [] refl refl refl) home_done

-- The loop with the old note loaded, the note still to be read, and no answer but silence.
abbrev all_fails : Files
all_fails = record {
  directory_tree = false;
  compression = false;
  max_storage_subdirs = 1000;
  makes = λ p. false;
  opens_delta = false;
  writes = λ b. false;
  closes = false;
  moves_delta = false;
}

abbrev silence : Answer
silence = record {
  got = (done, none);
  drains = λ w. [];
  rs_async = λ w. (rs_done, w);
  says_end = λ w. (true, w);
}

abbrev in_loop : Backup
in_loop = record {
  scan = at_home;
  man = old_rest;
  p1 = some (scans.file (scanned_note ∷ []));
  rb = init_sbuf;
  p2 = record { written = []; room = 1000 };
  dpth = first_dpth;
  last_requested = none;
  writebuf = [];
}

rounds-Holds_example :
    Holds
      (manifest cut_off)
      scans
      (note ∷ [])
      two
      (rounds all_fails opens_none old_conf (silence ∷ silence ∷ []) in_loop)
rounds-Holds_example =
    rounds-Holds (manifest cut_off) scans all_fails opens_none old_conf (silence ∷ silence ∷ [])
      (note ∷ []) two in_loop (note-IsNamed, tt) two-IsScanned
      (record {
        old_gone = [];
        old_rest = note ∷ [];
        old_split = refl;
        remains = loaded note [] refl refl refl;
        new_gone = home ∷ [];
        new_rest = scanned_note ∷ [];
        new_split = refl;
        reading = open_at refl;
      })
