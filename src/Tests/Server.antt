-- ===== src/Tests/Server.antt =====
-- Counters, the removal of backups, and the decisions of phase 2.
use burp.Prelude.{
  ℕ, ◌+◌, ◌<◌, ◌≡◌, ◌≢◌, refl, ap, Bool, true, false, none, some, List, [], ◌∷◌, ◌++◌, arith,
  length, All,
}
use burp.Prelude.Chars.{Bytes, codes, c_str, str_eq}
use burp.Cmd.{cmd_file, cmd_end_file, cmd_directory, cmd_warning}
use burp.Counter.{reset_filecounter}
use burp.Counter.Totals.{Event, run, AddsUp, Holds, reset-run-AddsUp}
use burp.Backups.{Bu, last, set_flags, thin, Found, do_remove_old_backups}
use burp.Backups.Removal.Deletable.{Small, Deletable}
use burp.Backups.Listing.Safe.{listed-Deletable, listed-successor_kept, listed-newest_kept}
use burp.Backups.Removal.Thinning.{thin-leaves}
use burp.Backups.Listing.{
  collect, to_bu, read_timestamp, sort, get_current_backups, remove_old_backups,
}
use burp.Strtoul.{strtoul}
use burp.Backups.Listing.Ends.{Settles, remove-Settles}
use burp.Path.{pathcmp}
use burp.Sbuf.Compare.{sbuf_pathcmp}
use burp.Dpth.{dpth_is_compressed}
use burp.Hex.{print_04x}
use burp.Msg.{send_msg, done, ended}
use burp.Sbuf.{Sbuf, init_sbuf, filedata}
use burp.Sbuf.Entry.{to_sbuf}
use burp.Sbuf.Manifest.{sbuf_to_fp}
use burp.Phase2.{Conf, Scan, maybe_process_file}
use burp.Phase2.Send.{Sending, send_flagged}
use burp.Phase2.Send.Order.{total, send_flagged-total}
use burp.Phase2.Receive.{Receiving, Files, do_stuff_to_receive}
use burp.Phase2.Receive.Complete.{Complete, receive-Complete}
use burp.Phase2.Decide.{Safe, processed-Safe}
use burp.Phase2.Delta.{Plain, delta_plain}
use burp.Tests.{note}

abbrev events : List Event
events = Event.fresh cmd_file ∷ Event.same cmd_directory ∷ Event.fresh cmd_warning ∷ []

reset-run-AddsUp_example : Holds AddsUp (run events (reset_filecounter 0 none))
reset-run-AddsUp_example = reset-run-AddsUp 0 events none

abbrev backup : ℕ → Bool → Bu
backup i h = record {
  path = i ∷ [];
  timestamp = [];
  index = i;
  hardlinked = h;
  deletable = false;
  trindex = 0;
}

abbrev three : List Bu
three = backup 1 false ∷ backup 2 true ∷ backup 3 false ∷ []

abbrev all_go : Bu → Bool
all_go b = true

thin-leaves_example : length (thin all_go 1 3 2 (set_flags three) []).1 < length {A = Bu} [] + 2
thin-leaves_example = thin-leaves all_go 1 3 2 (set_flags three) [] (omega arith)

abbrev found : List Found
found =
    record {
      name = codes "1";
      is_dir = true;
      timestamp = some (codes "0000001 then");
      hardlinked = false;
      opens = true;
    }
    ∷ []

remove-Settles_example :
    Settles all_go (2 ∷ []) [] [] (remove_old_backups all_go (2 ∷ []) [] [] found)
remove-Settles_example = remove-Settles all_go (2 ∷ []) [] [] found

abbrev found_at : ℕ → Bool → Found
found_at i h = record {
  name = (48 + i) ∷ [];
  is_dir = true;
  timestamp = some (codes "000000" ++ ((48 + i) ∷ codes " then"));
  hardlinked = h;
  opens = true;
}

abbrev dir : List Found
dir = found_at 3 false ∷ found_at 1 false ∷ found_at 2 true ∷ []

dir-Small : All Small (collect [] [] [] dir)
unfolding collect to_bu read_timestamp strtoul str_eq c_str
dir-Small = (omega arith, (omega arith, (omega arith, tt)))

listed-Deletable_example :
    All Deletable (do_remove_old_backups all_go (2 ∷ []) (get_current_backups [] [] dir)).1
listed-Deletable_example = listed-Deletable all_go (2 ∷ []) [] [] dir dir-Small

listed-newest_kept_example :
    All
      (λ b. (last (backup 0 false) (get_current_backups [] [] dir)).trindex < b.trindex)
      (do_remove_old_backups all_go (2 ∷ []) (get_current_backups [] [] dir)).1
listed-newest_kept_example =
    listed-newest_kept all_go (2 ∷ []) [] [] dir dir-Small (backup 0 false) refl (omega arith, tt)
      (omega arith)

abbrev listed : ℕ → Bool → Bool → ℕ → Bu
listed i h d t = record {
  path = (48 + i) ∷ [];
  timestamp = codes "000000" ++ ((48 + i) ∷ codes " then");
  index = i;
  hardlinked = h;
  deletable = d;
  trindex = t;
}

dir_listed :
    get_current_backups [] [] dir
    ≡ listed 1 false true 3 ∷ listed 2 true false 2 ∷ listed 3 false true 1 ∷ []
unfolding get_current_backups collect to_bu read_timestamp strtoul str_eq c_str sort set_flags
dir_listed = refl

listed-successor_kept_example :
    All
      (λ b. b ≢ listed 2 true false 2)
      (do_remove_old_backups all_go (2 ∷ []) (get_current_backups [] [] dir)).1
listed-successor_kept_example =
    listed-successor_kept all_go (2 ∷ []) [] [] dir dir-Small [] (listed 1 false true 3)
      (listed 2 true false 2) (listed 3 false true 1 ∷ []) dir_listed refl

abbrev conf : Conf
conf = record { librsync = true; compression = false; currentdata = codes "/data" }

-- The file was changed: its time is another.
abbrev changed_note : Sbuf
changed_note = record init_sbuf {
  cmd = cmd_file;
  path = some (codes "/home/note");
  plen = 10;
  statp = record (to_sbuf note).statp { mtime = 77; ctime = 77 };
}

abbrev scan : Scan
scan = record {
  cb = to_sbuf note;
  p1b = changed_note;
  uc = record { written = []; room = 1000 };
  cntr = none;
}

abbrev opens_all : Bool → Bytes → Bool
opens_all z p = true

changed_ended : (maybe_process_file opens_all conf scan).0 ≡ ended
unfolding maybe_process_file sbuf_pathcmp pathcmp c_str filedata dpth_is_compressed
changed_ended = refl

changed_sig : (maybe_process_file opens_all conf scan).1.p1b.sigjob ≡ true
unfolding maybe_process_file sbuf_pathcmp pathcmp c_str filedata dpth_is_compressed
changed_sig = refl

changed_data : filedata scan.p1b.cmd ≡ true
unfolding filedata
changed_data = refl

processed-Safe_example : Safe opens_all conf scan (maybe_process_file opens_all conf scan).1
processed-Safe_example =
    processed-Safe opens_all conf scan (λ e. ground (arith, e, changed_data)) changed_ended

delta_plain_example : Plain opens_all conf scan refl
delta_plain_example = delta_plain opens_all conf scan refl changed_sig

-- All three parts are flagged, and there is space for them.
abbrev sending : Sending
sending = record {
  p1b = record (to_sbuf note) { senddatapth = 1; sendstat = 1; sendpath = 1 };
  writebuf = codes "c0000";
  last_requested = none;
}

send_flagged-total_example : total (send_flagged sending).1 ≡ total sending
send_flagged-total_example =
    send_flagged-total sending (record { cmd_pos = omega arith; slen_eq = refl; plen_eq = refl })

-- The end of a file of which the data arrived, on a file system where all succeeds.
abbrev good_files : Files
good_files = record {
  directory_tree = false;
  compression = true;
  max_storage_subdirs = 30000;
  makes = λ p. true;
  opens_delta = true;
  writes = λ b. true;
  closes = true;
  moves_delta = true;
}

abbrev receiving : Receiving
receiving = record {
  rb = record (to_sbuf note) { fp = true };
  p2 = record { written = []; room = 1000 };
  dpth = record { prim = 0; seco = 0; tert = 1; looped = 0 };
  last_requested = some (codes "/home/note");
  cntr = none;
}

p2_grows :
    0
    < length
        (do_stuff_to_receive good_files
          (done, some (cmd_end_file, codes "1:0"))
          receiving).1.p2.written
unfolding do_stuff_to_receive sbuf_to_fp send_msg print_04x c_str filedata
p2_grows = omega arith

p2_changes :
    (do_stuff_to_receive good_files (done, some (cmd_end_file, codes "1:0")) receiving).1.p2
    ≢ receiving.p2
p2_changes e =
    let same_length : length
          (do_stuff_to_receive good_files (done, some (cmd_end_file, codes "1:0"))
            receiving).1.p2.written
        ≡ 0 =
      ap (λ k. length k.written) e in
    let grows = p2_grows in omega arith

receive-Complete_example : Complete good_files cmd_end_file receiving
receive-Complete_example =
    receive-Complete good_files cmd_end_file (codes "1:0") receiving p2_changes
