-- ===== src/Tests/Disk.antt =====
-- The data files of a backup on the disk: phase 4.
use burp.Prelude.{
  ℕ, ◌≤◌, ◌≡◌, refl, true, false, not, none, some, inl, List, [], ◌∷◌, ◌++◌, arith, All, take,
  length,
}
use burp.Prelude.Chars.{codes, str_eq, c_str}
use burp.Dpth.{dpth_is_compressed}
use burp.Msg.{done, failed}
use burp.Sbuf.Entry.{to_sbuf}
use burp.Phase4.Jiggle.{
  Disk, Librsync, Answers, Job, start, do_link, inflate_file, inflate_or_link_oldfile,
  gen_rev_delta, put_patched, patched, forward, place, jiggle,
}
use burp.Phase4.Jiggle.Outcome.{outcome}
use burp.Phase4.Jiggle.Places.{Works, Total, Clear}
use burp.Phase4.Jiggle.Recovers.{Attempts, untouched, cut, jiggle-recovers, jiggle-stuck}
use burp.Backups.Tree
use burp.Backups.Tree.{Entries, file, dir, nil, dot, entry, recursive_delete, recursive_hardlink}
use burp.Backups.Tree.Delete.{has_files, prune, pruned, recursive_delete-pruned}
use burp.Backups.Tree.Link.{undot, with_last, hardlink_unreported}
use burp.Hex.{print_04x}
use burp.Path.{pathcmp}
use burp.Sbuf.Compare.{sbuf_pathcmp}
use burp.Prepend.{prepend_s}
use burp.Sbuf.Entry.{Entry, IsEntry}
use burp.Phase3.Merge.{all_messages}
use burp.Phase3.Load.{stream}
use burp.Phase4.Deletions.{maybe_delete_files_from_manifest}
use burp.Phase4.Deletions.Subtract.{subtract, Without}
use burp.Phase4.Deletions.Run.Whole.{maybe_delete-Without}
use burp.Tests.{home, note}
use burp.Tests.Entries.{home-IsEntry, note-IsEntry}

-- A delta holds what is appended; a reverse delta, the whole old file.
abbrev library : Librsync
library = record {
  inflate = λ z. some z;
  patch = λ i x. some (i ++ x);
  signature = λ n. some (take 1 n);
  delta = λ s o. some o;
}

abbrev answers : Answers
answers = record {
  makes_fin = true;
  makes_new = true;
  makes_rev = true;
  opens = true;
  closes = true;
  links = true;
  renames = true;
  flushes = true;
  opens_patch = true;
  closes_patch = true;
  torn = λ b. take 1 b;
}

abbrev job : ℕ → Job
job compression = record {
  currentdata = codes "/current/data";
  datapth = codes "0000/0000/0001";
  compression = compression;
  hardlinked = false;
  max_hardlinks = 10000;
  sb = to_sbuf note;
}

abbrev before : Disk
before = record {
  old = some (codes "ab");
  new = none;
  fin = none;
  delta = some (codes "cd");
  inf = none;
  sig = none;
  rev = none;
  deletions = record { written = []; room = 1000 };
  linked = false;
  links = 1;
}

before-outcome : outcome library (job 5) before ≡ some (codes "abcd")
unfolding outcome dpth_is_compressed
before-outcome = refl

answers-Works : Works answers
answers-Works = record {
  makes_fin = refl;
  makes_new = refl;
  makes_rev = refl;
  opens = refl;
  closes = refl;
  links = refl;
  renames = refl;
  opens_patch = refl;
  closes_patch = refl;
}

library-Total : Total library
library-Total = record { signs = λ n. (take 1 n, refl); deltas = λ s o. (o, refl) }

-- The power goes while the new file is written.
abbrev halfway : Disk
halfway = record before { inf = some (codes "ab"); new = some (codes "a") }

halfway-Attempts : Attempts library (job 5) before halfway
unfolding jiggle place forward inflate_or_link_oldfile inflate_file patched gen_rev_delta
    put_patched dpth_is_compressed
halfway-Attempts = cut untouched answers 12 refl

compressed-Clear : Clear (job 5) halfway
unfolding dpth_is_compressed
compressed-Clear = inl refl

jiggle-recovers_example :
    ((jiggle library answers (job 5) halfway).0 ≡ done)
    × ((jiggle library answers (job 5) halfway).1.disk.fin ≡ some (codes "abcd"))
jiggle-recovers_example =
    jiggle-recovers library answers (job 5) (codes "abcd") before halfway answers-Works
      library-Total (omega arith, λ l. ground (arith, l)) before-outcome halfway-Attempts
      compressed-Clear

abbrev left_over : Disk
left_over = record before { inf = some (codes "ab"); linked = true }

jiggle-stuck_example : jiggle library answers (job 0) left_over ≡ (failed, start left_over)
unfolding dpth_is_compressed
jiggle-stuck_example =
    jiggle-stuck library answers (job 0) left_over refl (omega arith) refl refl refl

-- It comes from a power cut after the hard link.
left_over-Attempts : Attempts library (job 0) before left_over
unfolding jiggle place forward inflate_or_link_oldfile do_link patched gen_rev_delta put_patched
    dpth_is_compressed
left_over-Attempts = cut untouched answers 14 refl

note_alone : All IsEntry (note ∷ [])
note_alone = (note-IsEntry, tt)

subtract_fits : length (all_messages (subtract (home ∷ note ∷ []) (note ∷ []))) ≤ 1000
unfolding subtract sbuf_pathcmp pathcmp c_str print_04x
subtract_fits = omega arith

maybe_delete-Without_example :
    (rest : List Entry) × Without (note ∷ []) (home ∷ note ∷ []) rest
    × (maybe_delete_files_from_manifest true true 1000
          (some (stream (note ∷ [])))
          (stream (home ∷ note ∷ []))
        ≡ record { ret = done; manifest = some (all_messages rest); removed = true })
maybe_delete-Without_example =
    maybe_delete-Without 1000 (home ∷ note ∷ []) (note ∷ []) (home-IsEntry, note_alone) note_alone
      subtract_fits

abbrev all_well : Tree.Answers
all_well = record {
  stats = λ p. true;
  lists = λ p. true;
  unlinks = λ p. true;
  rmdirs = λ p. true;
  mkpaths = λ p. true;
  links = λ p. not (str_eq p (codes "/new/b"));
}

abbrev tree : Entries
tree = dot (entry (codes "d") (dir nil) (entry (codes "a") (file (codes "1")) nil))

recursive_delete-pruned_example :
    recursive_delete all_well false (codes "/old") tree
    ≡ pruned (has_files false tree) (prune false tree)
recursive_delete-pruned_example =
    recursive_delete-pruned all_well
      (record { stats = λ p. refl; lists = λ p. refl; unlinks = λ p. refl; rmdirs = λ p. refl })
      false (codes "/old") tree

hardlink_unreported_example :
    recursive_hardlink all_well
      (codes "/old")
      (codes "/new")
      (with_last tree (entry (codes "b") (file (codes "2")) nil))
    ≡ (done, some (undot tree))
unfolding prepend_s str_eq
hardlink_unreported_example =
    hardlink_unreported all_well
      (record { stats = λ p. refl; lists = λ p. refl; mkpaths = λ p. refl }) (codes "/old")
      (codes "/new") tree (codes "b") (codes "2") (tt, (refl, tt)) refl
