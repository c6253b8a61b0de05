-- ===== src/Phase2/Rounds/Search.antt =====
-- An entry of the manifest against one of phase 1, in the loop of src/backup_phase2_server.c.
use burp.Prelude.{◌≡◌, ◌≢◌, refl, ap, ◌∙◌, Bool, true, not, some, arith, if◌then◌else◌, if-cases}
use burp.Prelude.Chars.{Bytes}
use burp.Counter.{do_filecounter_deleted}
use burp.Msg.{Ret, done, ended, failed, fault, is_done, Stream}
use burp.Path.{Cmp, less, same, more}
use burp.Sbuf.{init_sbuf, filedata}
use burp.Sbuf.Compare.{sbuf_pathcmp}
use burp.Sbuf.Manifest.{sbuf_to_fp}
use burp.Phase2.{
  Conf, Scan, new_non_file, process_new, process_new_file, process_unchanged_file, process_delta,
  process_both, process_changed_file, changed_non_file, maybe_process_file,
}
use burp.Phase2.Decide.{both-cases, Inner, changed_file-Inner, changed_non_file-Inner}
use burp.Phase2.Rounds.{Look, found, further, compare_entry}

-- The way a comparison goes on.
abbrev pub goes_on : Ret × Scan → Stream → Look
goes_on (done, s) st = further s st
goes_on (ended, s) st = found done s (some st)
goes_on (failed, s) st = found failed s (some st)
goes_on (fault, s) st = found fault s (some st)

-- What is known when an entry was dealt with: it is not done with only if it is an error, and the
-- entry of the manifest is freed.
unfoldable pub Settled : Ret × Scan → Type 0
Settled (r, s) = (r ≢ done) × (r ≡ ended → s.cb ≡ init_sbuf)

module _ (s : Scan) where
  pub process_new-done : (process_new s).0 ≡ done
  unfolding process_new
  process_new-done =
      if-cases (λ (r : Ret × Scan). r.0 ≡ done) (filedata s.p1b.cmd) _ _ (λ e. refl) (λ e. refl)

  pub process_new-cb : (process_new s).1.cb ≡ s.cb
  unfolding process_new new_non_file
  process_new-cb =
      if-cases (λ (r : Ret × Scan). r.1.cb ≡ s.cb) (filedata s.p1b.cmd) _ _ (λ e. refl)
        (λ e.
          if-cases (λ (r : Ret × Scan). r.1.cb ≡ s.cb)
            (not (is_done (sbuf_to_fp s.p1b true s.uc).0)) _ _ (λ f. refl) (λ f. refl))

  new_file-Settled : Settled (process_new_file s)
  unfolding Settled process_new_file
  new_file-Settled =
      if-cases Settled (not (is_done (process_new s).0)) _ _
        (λ e. let d = process_new-done in ground arith) (λ e. ((λ f. ground arith), λ f. refl))

  unchanged_file-Settled : Settled (process_unchanged_file s)
  unfolding Settled process_unchanged_file
  unchanged_file-Settled =
      if-cases Settled (not (is_done (sbuf_to_fp s.cb true s.uc).0)) _ _
        (λ e. ((λ f. ground arith), λ f. refl)) (λ e. ((λ f. ground arith), λ f. refl))

module _ (opens : Bool → Bytes → Bool) (conf : Conf) (s : Scan) where
  freed-Settled :
      (r : Ret × Scan)
      → r.0 ≢ ended
      → Settled (if not (is_done r.0) then r else (ended, record r.1 { cb = init_sbuf }))
  unfolding Settled
  freed-Settled (done, s') h = ((λ e. ground arith), λ e. refl)
  freed-Settled (ended, s') h = absurd (h refl)
  freed-Settled (failed, s') h = ((λ e. ground arith), λ e. ground arith)
  freed-Settled (fault, s') h = ((λ e. ground arith), λ e. ground arith)

  delta-Settled : Settled (process_delta opens conf s)
  unfolding process_delta Inner
  delta-Settled =
      freed-Settled
        (if filedata s.p1b.cmd then process_changed_file opens conf s else changed_non_file s)
        (if-cases (λ (r : Ret × Scan). r.0 ≢ ended) (filedata s.p1b.cmd) _ _
          (λ e. (changed_file-Inner opens conf s).0)
          (λ e. (changed_non_file-Inner opens conf s e).0))

  pub both-Settled : Settled (process_both opens conf s)
  both-Settled =
      both-cases opens conf s Settled (new_file-Settled s) (unchanged_file-Settled s) delta-Settled

  -- What `maybe_process_file` does by the order of the two entries.
  abbrev pub by_order : Cmp → Ret × Scan
  by_order less = (done, record s { cntr = do_filecounter_deleted s.cb.cmd s.cntr })
  by_order same = process_both opens conf s
  by_order more = (ended, (process_new s).1)

  process-order :
      (c : Cmp) → sbuf_pathcmp s.cb s.p1b ≡ c → maybe_process_file opens conf s ≡ by_order c
  unfolding maybe_process_file
  process-order c h =
      ap
        (λ c. elim c as (λ c. Ret × Scan) [
          | same ↦ process_both opens conf s
          | more ↦ (if not (is_done (process_new s).0) then failed else ended, (process_new s).1)
          | less ↦ (done, record s { cntr = do_filecounter_deleted s.cb.cmd s.cntr })
        ])
        h
      ∙ splits c
    where
      splits :
          (c : Cmp)
          → (elim c as (λ c. Ret × Scan) [
            | same ↦ process_both opens conf s
            | more ↦ (if not (is_done (process_new s).0) then failed else ended, (process_new s).1)
            | less ↦ (done, record s { cntr = do_filecounter_deleted s.cb.cmd s.cntr })
          ])
            ≡ by_order c
      splits less = refl
      splits same = refl
      splits more = rw (process_new-done s) refl

  pub compare-order :
      (st : Stream) (c : Cmp)
      → sbuf_pathcmp s.cb s.p1b ≡ c
      → compare_entry opens conf s st ≡ goes_on (by_order c) st
  unfolding compare_entry
  compare-order st c h =
      goes (maybe_process_file opens conf s) ∙ ap (λ x. goes_on x st) (process-order c h)
    where
      goes :
          (x : Ret × Scan)
          → (elim x.0 [
            | done ↦ further x.1 st
            | ended ↦ found done x.1 (some st)
            | failed ↦ found failed x.1 (some st)
            | fault ↦ found fault x.1 (some st)
          ])
            ≡ goes_on x st
      goes (done, s') = refl
      goes (ended, s') = refl
      goes (failed, s') = refl
      goes (fault, s') = refl
