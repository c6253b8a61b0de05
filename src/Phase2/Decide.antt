-- ===== src/Phase2/Decide.antt =====
-- What becomes of an entry in `maybe_process_file` of src/backup_phase2_server.c.
use burp.Prelude.{
  ◌<◌, ◌≡◌, ◌≢◌, refl, Bool, true, false, not, ◌&&◌, ◌||◌, none, some, ltb, ◌==◌, if◌then◌else◌,
  if-cases, option-cases, arith,
}
use burp.Prelude.Chars.{Bytes, c_str}
use burp.Counter.{do_filecounter_deleted}
use burp.Dpth.{dpth_is_compressed}
use burp.Prepend.{prepend_s}
use burp.Msg.{Ret, done, ended, failed, fault, is_done}
use burp.Path.{less, same, more}
use burp.Sbuf.{free_sbuf, filedata}
use burp.Sbuf.Manifest.{sbuf_to_fp}
use burp.Sbuf.Compare.{sbuf_pathcmp}
use burp.Phase2.{
  Conf, Scan, new_non_file, changed_non_file, process_new, process_unchanged_file, process_new_file,
  start_sig, process_changed_file, has_meta, needs_whole, switched, process_delta, process_both,
  maybe_process_file,
}

-- The old entry is in the unchanged file, or the new one is, or the new one will be asked for.
pub data Kept (s : Scan) (s' : Scan) : Type 0 where
  old : s'.uc ≡ (sbuf_to_fp s.cb true s.uc).1 → (sbuf_to_fp s.cb true s.uc).0 ≡ done → Kept s s'
  new : filedata s.p1b.cmd ≡ false → s'.uc ≡ (sbuf_to_fp s.p1b true s.uc).1 → Kept s s'
  asked :
      0 < s'.p1b.sendstat
      → 0 < s'.p1b.sendpath
      → s'.p1b.path ≡ s.p1b.path
      → s'.uc ≡ s.uc
      → Kept s s'

unfoldable pub Keeps : Scan → Ret × Scan → Type 0
Keeps s (r, s') = r ≡ ended → Kept s s'

abbrev pub Processed : Scan → Ret × Scan → Type 0
Processed s (r, s') = Kept s s'

module _ (s : Scan) where
  pub new_non_file-uc : (new_non_file s).1.uc ≡ (sbuf_to_fp s.p1b true s.uc).1
  unfolding new_non_file
  new_non_file-uc =
      if-cases (λ (r : Ret × Scan). r.1.uc ≡ (sbuf_to_fp s.p1b true s.uc).1)
        (not (is_done (sbuf_to_fp s.p1b true s.uc).0)) _ _ (λ e. refl) (λ e. refl)

  changed_non_file-uc : (changed_non_file s).1.uc ≡ (sbuf_to_fp s.p1b true s.uc).1
  unfolding changed_non_file
  changed_non_file-uc =
      if-cases (λ (r : Ret × Scan). r.1.uc ≡ (sbuf_to_fp s.p1b true s.uc).1)
        (not (is_done (sbuf_to_fp s.p1b true s.uc).0)) _ _ (λ e. refl) (λ e. refl)

  pub process_new-Kept : Processed s (process_new s)
  unfolding process_new
  process_new-Kept =
      if-cases (Processed s) (filedata s.p1b.cmd) _ _
        (λ e. asked (omega arith) (omega arith) refl refl) (λ e. new e new_non_file-uc)

  freed : {s' : Scan} → Kept s s' → Kept s (record s' { cb = free_sbuf s'.cb })
  freed (old e f) = old e f
  freed (new n e) = new n e
  freed (asked a b e f) = asked a b e f

  process_new_file-Kept : Processed s (process_new_file s)
  unfolding process_new_file
  process_new_file-Kept =
      if-cases (Processed s) (not (is_done (process_new s).0)) _ _ (λ e. process_new-Kept)
        (λ e. freed process_new-Kept)

  process_unchanged_file-Keeps : Keeps s (process_unchanged_file s)
  unfolding process_unchanged_file Keeps
  process_unchanged_file-Keeps =
      if-cases (Keeps s) (not (is_done (sbuf_to_fp s.cb true s.uc).0)) _ _ (λ e f. ground arith)
        (λ e f. old refl (ground arith))

module _ (opens : Bool → Bytes → Bool) (conf : Conf) (s : Scan) where
  -- A step that is to be followed by another.
  unfoldable pub Inner : Ret × Scan → Type 0
  Inner (r, s') = (r ≢ ended) × (r ≡ done → Kept s s')

  start_sig-Inner : (d : Bytes) → Inner (start_sig opens conf s d)
  unfolding start_sig Inner
  start_sig-Inner d =
      let curpath = prepend_s conf.currentdata (c_str d) in
      if-cases Inner (not (opens (ltb 0 (dpth_is_compressed s.cb.compression curpath)) curpath)) _ _
        (λ e. ((λ f. ground arith), (λ f. ground arith)))
        (λ e.
          option-cases Inner s.cb.endfile _ _ (λ g. ((λ f. ground arith), (λ f. ground arith)))
            (λ b g. ((λ f. ground arith), (λ f. asked (omega arith) (omega arith) refl refl))))

  pub changed_file-Inner : Inner (process_changed_file opens conf s)
  unfolding process_changed_file Inner
  changed_file-Inner =
      elim s.cb.datapth
        as (λ o. Inner (elim o [ none ↦ (fault, s) | some d ↦ start_sig opens conf s d ])) [
          | none ↦ ((λ f. ground arith), (λ f. ground arith))
          | some d ↦ start_sig-Inner d
        ]

  pub changed_non_file-Inner : filedata s.p1b.cmd ≡ false → Inner (changed_non_file s)
  unfolding Inner changed_non_file
  changed_non_file-Inner n =
      let k = changed_non_file-uc s in
      if-cases Inner (not (is_done (sbuf_to_fp s.p1b true s.uc).0)) _ _
        (λ e. ((λ f. ground arith), (λ f. ground arith)))
        (λ e. ((λ f. ground arith), (λ f. new n refl)))

  Inner-Keeps :
      (r : Ret × Scan)
      → Inner r
      → Keeps s (if not (is_done r.0) then r else (ended, record r.1 { cb = free_sbuf r.1.cb }))
  unfolding Inner Keeps
  Inner-Keeps (done, s') i = λ e. freed s (i.1 refl)
  Inner-Keeps (ended, s') i = λ e. absurd (i.0 refl)
  Inner-Keeps (failed, s') i = λ e. ground arith
  Inner-Keeps (fault, s') i = λ e. ground arith

  delta-Keeps : Keeps s (process_delta opens conf s)
  unfolding process_delta
  delta-Keeps =
      Inner-Keeps
        (if filedata s.p1b.cmd then process_changed_file opens conf s else changed_non_file s)
        (if-cases Inner (filedata s.p1b.cmd) _ _ (λ e. changed_file-Inner)
          (λ e. changed_non_file-Inner e))

  -- What holds of each of the three ways to deal with an entry that both lists have.
  pub both-cases :
      (P : Ret × Scan → Type 0)
      → P (process_new_file s)
      → P (process_unchanged_file s)
      → P (process_delta opens conf s)
      → P (process_both opens conf s)
  unfolding process_both
  both-cases P whole unchanged delta =
      if-cases P (not (s.cb.cmd == s.p1b.cmd)) _ _ (λ e. whole)
        (λ e.
          if-cases P
            (s.cb.statp.mtime == s.p1b.statp.mtime && s.cb.statp.ctime == s.p1b.statp.ctime) _ _
            (λ f. unchanged)
            (λ f.
              if-cases P (s.cb.statp.mtime == s.p1b.statp.mtime) _ _
                (λ g.
                  if-cases P (has_meta s.cb.cmd || has_meta s.p1b.cmd) _ _ (λ h. whole)
                    (λ h. unchanged))
                (λ g.
                  if-cases P (needs_whole conf s) _ _ (λ h. whole)
                    (λ h. if-cases P (switched conf s) _ _ (λ i. whole) (λ i. delta)))))

  pub both-Keeps : Keeps s (process_both opens conf s)
  unfolding Keeps
  both-Keeps =
      both-cases (Keeps s) (λ e. process_new_file-Kept s) (process_unchanged_file-Keeps s)
        delta-Keeps

  -- Where the entry of phase 1 is, or the same one of the manifest: written to the unchanged file
  -- without an error, or flagged to be asked for.
  pub data Safe (s' : Scan) : Type 0 where
    old_written :
        sbuf_pathcmp s.cb s.p1b ≡ same
        → s'.uc ≡ (sbuf_to_fp s.cb true s.uc).1
        → (sbuf_to_fp s.cb true s.uc).0 ≡ done
        → Safe s'
    new_written :
        s'.uc ≡ (sbuf_to_fp s.p1b true s.uc).1 → (sbuf_to_fp s.p1b true s.uc).0 ≡ done → Safe s'
    to_ask :
        0 < s'.p1b.sendstat
        → 0 < s'.p1b.sendpath
        → s'.p1b.path ≡ s.p1b.path
        → s'.uc ≡ s.uc
        → Safe s'

  abbrev Ends : Ret × Scan → Type 0
  Ends (r, s') = r ≡ ended → Safe s'

  abbrev Writes : Type 0
  Writes = filedata s.p1b.cmd ≡ false → (sbuf_to_fp s.p1b true s.uc).0 ≡ done

  process_new-Safe : Writes → Safe (process_new s).1
  unfolding process_new
  process_new-Safe w =
      if-cases (λ (r : Ret × Scan). Safe r.1) (filedata s.p1b.cmd) _ _
        (λ e. to_ask (omega arith) (omega arith) refl refl)
        (λ e. new_written (new_non_file-uc s) (w e))

  both-Safe : sbuf_pathcmp s.cb s.p1b ≡ same → Writes → Ends (process_both opens conf s)
  unfolding Keeps
  both-Safe c w e = kept (both-Keeps e)
    where
      kept : {s' : Scan} → Kept s s' → Safe s'
      kept (old f g) = old_written c f g
      kept (new n f) = new_written f (w n)
      kept (asked a b f g) = to_ask a b f g

  -- Where `maybe_process_file` returns 1 and a new entry without data can be written to the
  -- unchanged file, no entry is lost: the same entry of the manifest was written to the unchanged
  -- file without an error, or the new entry was, or the unchanged file is as before and the new
  -- entry, with its path, is flagged to be asked for (both its stat data and its path).
  pub processed-Safe :
      (filedata s.p1b.cmd ≡ false → (sbuf_to_fp s.p1b true s.uc).0 ≡ done)
      → (maybe_process_file opens conf s).0 ≡ ended
      → Safe (maybe_process_file opens conf s).1
  unfolding maybe_process_file
  processed-Safe w =
      elim (sbuf_pathcmp s.cb s.p1b)
          as (λ c.
            sbuf_pathcmp s.cb s.p1b ≡ c
            → Ends (elim c [
              | same ↦ process_both opens conf s
              | more ↦
                  (if not (is_done (process_new s).0) then failed else ended, (process_new s).1)
              | less ↦ (done, record s { cntr = do_filecounter_deleted s.cb.cmd s.cntr })
            ])) [
              | same ↦ λ c. both-Safe c w
              | more ↦ λ c e. process_new-Safe w
              | less ↦ λ c e. ground arith
            ]
        refl
