-- ===== src/Phase2/Delta.antt =====
-- Deltas in `maybe_process_file`, and errors in `process_new`, of src/backup_phase2_server.c.
use burp.Prelude.{
  ℕ, ◌≡◌, ◌≢◌, ◌∙◌, refl, Bool, true, false, not, ◌&&◌, ◌||◌, ◌==◌, if◌then◌else◌, if-cases, arith,
}
use burp.Prelude.Chars.{Bytes}
use burp.Counter.{do_filecounter_deleted}
use burp.Msg.{Ret, done, ended, failed, is_done}
use burp.Path.{less, same, more}
use burp.Sbuf.{init_sbuf, filedata}
use burp.Cmd.{cmd_file, cmd_enc_file}
use burp.Sbuf.Manifest.{sbuf_to_fp}
use burp.Sbuf.Compare.{sbuf_pathcmp}
use burp.Phase2.{
  Conf, Scan, new_non_file, process_new, process_unchanged_file, process_new_file, has_meta,
  needs_whole, switched, oldcompressed, changed_non_file, process_delta, process_both,
  maybe_process_file,
}

-- Where an entry carries no data and writing it to the unchanged file fails, `process_new` still
-- returns 0, and neither counts nor frees the entry.
pub process_new_unreported :
    (s : Scan)
    → filedata s.p1b.cmd ≡ false
    → is_done (sbuf_to_fp s.p1b true s.uc).0 ≡ false
    → process_new s ≡ (done, record s { uc = (sbuf_to_fp s.p1b true s.uc).1 })
unfolding process_new new_non_file
process_new_unreported s f w = rw (f, w) refl

module _ (opens : Bool → Bytes → Bool) (conf : Conf) (s : Scan) (fresh : s.p1b.sigjob ≡ false) where
  -- No signature is to be sent.
  NoSig : Ret × Scan → Type 0
  NoSig (r, s') = s'.p1b.sigjob ≡ false

  new_non_file-NoSig : NoSig (new_non_file s)
  unfolding new_non_file NoSig
  new_non_file-NoSig =
      if-cases NoSig (not (is_done (sbuf_to_fp s.p1b true s.uc).0)) _ _ (λ e. fresh) (λ e. refl)

  process_new-NoSig : NoSig (process_new s)
  unfolding process_new NoSig
  process_new-NoSig = if-cases NoSig (filedata s.p1b.cmd) _ _ (λ e. fresh) (λ e. new_non_file-NoSig)

  process_new_file-NoSig : NoSig (process_new_file s)
  unfolding process_new_file NoSig
  process_new_file-NoSig =
      if-cases NoSig (not (is_done (process_new s).0)) _ _ (λ e. process_new-NoSig)
        (λ e. process_new-NoSig)

  unchanged-NoSig : NoSig (process_unchanged_file s)
  unfolding process_unchanged_file NoSig
  unchanged-NoSig =
      if-cases NoSig (not (is_done (sbuf_to_fp s.cb true s.uc).0)) _ _ (λ e. fresh) (λ e. fresh)

  -- An ordinary file in both lists, which was changed and is stored as the configuration says.
  abbrev pub Plain : Type 0
  Plain =
      (s.cb.cmd ≡ cmd_file)
      × (s.p1b.cmd ≡ cmd_file)
      × (conf.librsync ≡ true)
      × (oldcompressed s.cb ≡ conf.compression)
      × (s.cb.statp.mtime ≢ s.p1b.statp.mtime)

  OnlyPlain : Ret × Scan → Type 0
  OnlyPlain (r, s') = s'.p1b.sigjob ≡ true → Plain

  none-sent : (r : Ret × Scan) → NoSig r → OnlyPlain r
  unfolding NoSig OnlyPlain
  none-sent r n e = ground arith

  -- A kind of data that is neither encrypted, meta data nor EFS is that of an ordinary file.
  plain-kind :
      (c : ℕ) → filedata c ≡ true → (c == cmd_enc_file) ≡ false → has_meta c ≡ false → c ≡ cmd_file
  unfolding filedata
  plain-kind c f e m = ground arith

  non_file-NoSig : NoSig (changed_non_file s)
  unfolding changed_non_file NoSig
  non_file-NoSig =
      if-cases NoSig (not (is_done (sbuf_to_fp s.p1b true s.uc).0)) _ _ (λ e. fresh) (λ e. refl)

  delta-OnlyPlain :
      (s.cb.cmd == s.p1b.cmd) ≡ true
      → needs_whole conf s ≡ false
      → switched conf s ≡ false
      → (s.cb.statp.mtime == s.p1b.statp.mtime) ≡ false
      → OnlyPlain (process_delta opens conf s)
  unfolding process_delta OnlyPlain NoSig
  delta-OnlyPlain e w c m =
      if-cases
        (λ (x : Ret × Scan).
          OnlyPlain (if not (is_done x.0) then x else (ended, record x.1 { cb = init_sbuf })))
        (filedata s.p1b.cmd) _ _ (λ f j. plain f)
        (λ f.
          if-cases OnlyPlain (not (is_done (changed_non_file s).0)) _ _
            (λ g. none-sent (changed_non_file s) non_file-NoSig)
            (λ g.
              none-sent (ended, record (changed_non_file s).1 { cb = init_sbuf }) non_file-NoSig))
    where
      plain : filedata s.p1b.cmd ≡ true → Plain
      plain f =
          let same : s.cb.cmd ≡ s.p1b.cmd = ground arith in
          let kind = plain-kind s.p1b.cmd f (ground (arith, w)) (ground (arith, w)) in
          (same ∙ kind, kind, ground (arith, w), ground (arith, c), (λ k. ground (arith, k, m)))

  both-OnlyPlain : OnlyPlain (process_both opens conf s)
  unfolding process_both OnlyPlain
  both-OnlyPlain =
      let whole = none-sent (process_new_file s) process_new_file-NoSig in
      let unchanged = none-sent (process_unchanged_file s) unchanged-NoSig in
      if-cases OnlyPlain (not (s.cb.cmd == s.p1b.cmd)) _ _ (λ e. whole)
        (λ e.
          if-cases OnlyPlain
            (s.cb.statp.mtime == s.p1b.statp.mtime && s.cb.statp.ctime == s.p1b.statp.ctime) _ _
            (λ f. unchanged)
            (λ f.
              if-cases OnlyPlain (s.cb.statp.mtime == s.p1b.statp.mtime) _ _
                (λ g.
                  if-cases OnlyPlain (has_meta s.cb.cmd || has_meta s.p1b.cmd) _ _ (λ h. whole)
                    (λ h. unchanged))
                (λ g.
                  if-cases OnlyPlain (needs_whole conf s) _ _ (λ h. whole)
                    (λ h.
                      if-cases OnlyPlain (switched conf s) _ _ (λ i. whole)
                        (λ i. delta-OnlyPlain (not-false e) h i g)))))
    where
      not-false : {b : Bool} → not b ≡ false → b ≡ true
      not-false e = ground arith

  process-OnlyPlain : OnlyPlain (maybe_process_file opens conf s)
  unfolding maybe_process_file OnlyPlain
  process-OnlyPlain =
      elim (sbuf_pathcmp s.cb s.p1b)
        as (λ c. OnlyPlain (elim c [
          | same ↦ process_both opens conf s
          | more ↦ (if not (is_done (process_new s).0) then failed else ended, (process_new s).1)
          | less ↦ (done, record s { cntr = do_filecounter_deleted s.cb.cmd s.cntr })
        ])) [
          | same ↦ both-OnlyPlain
          | more ↦ none-sent _ process_new-NoSig
          | less ↦ λ e. ground arith
        ]

  -- Where the new entry had no signature job, `maybe_process_file` starts one (asks for a delta)
  -- only if the entry is an ordinary file in both lists (so neither encrypted, meta data, VSS nor
  -- EFS), librsync is on, the old file is compressed exactly if the configuration says so, and the
  -- two modification times differ.
  pub delta_plain : (maybe_process_file opens conf s).1.p1b.sigjob ≡ true → Plain
  unfolding OnlyPlain
  delta_plain = process-OnlyPlain
