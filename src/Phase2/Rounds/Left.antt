-- ===== src/Phase2/Rounds/Left.antt =====
-- What an entry of phase 1 leaves, in the loop of src/backup_phase2_server.c: the rest of the
-- manifest, and where the entry itself is.
use mathlib.Core.List.{append-nil, append_assoc}
use burp.Prelude.{
  ◌<◌, ◌≡◌, ◌≢◌, refl, sym, Bool, true, false, Option, none, some, List, [], ◌∷◌, ◌++◌, arith,
  if-cases, All, All-map, All-append,
}
use burp.Prelude.Chars.{Bytes}
use burp.Msg.{Ret, done, ended, failed, fault, Stream}
use burp.Path.{same, more}
use burp.Sbuf.{Sbuf, filedata}
use burp.Sbuf.Compare.{sbuf_pathcmp}
use burp.Sbuf.Entry.{Entry, to_sbuf}
use burp.Sbuf.Manifest.{sbuf_to_fp}
use burp.Phase1.Forward.{Source}
use burp.Phase2.{Conf, Scan, process_new, process_both}
use burp.Phase2.Decide.{Kept, old, new, asked, Keeps, both-Keeps, new_non_file-uc}
use burp.Phase2.Rounds.{process_entry}
use burp.Phase2.Rounds.Search.{Settled, process_new-cb, both-Settled}
use burp.Phase2.Rounds.Placed.{
  Before, behind, ends_at, Placed, missing, ahead, both, Remains, unread, loaded, closed,
  process_entry-Placed,
}

-- Where the entry of phase 1 is: the one of the manifest that is the same went into the unchanged
-- file without an error, or it was itself handed to be written there, or it is flagged to be asked
-- for and the unchanged file is as before.
pub data Saved (s s' : Scan) : Type 0 where
  unchanged :
      (o : Entry)
      → sbuf_pathcmp (to_sbuf o) s.p1b ≡ same
      → s'.uc ≡ (sbuf_to_fp (to_sbuf o) true s.uc).1
      → (sbuf_to_fp (to_sbuf o) true s.uc).0 ≡ done
      → Saved s s'
  handed : s'.uc ≡ (sbuf_to_fp s.p1b true s.uc).1 → Saved s s'
  flagged :
      0 < s'.p1b.sendstat
      → 0 < s'.p1b.sendpath
      → s'.p1b.path ≡ s.p1b.path
      → s'.uc ≡ s.uc
      → Saved s s'

process_new-Saved : (s : Scan) → Saved s (process_new s).1
unfolding process_new
process_new-Saved s =
    if-cases (λ (r : Ret × Scan). Saved s r.1) (filedata s.p1b.cmd) _ _
      (λ e. flagged (omega arith) (omega arith) refl refl) (λ e. handed (new_non_file-uc s))

-- What was loaded, and what was counted, makes no difference.
Saved-behind :
    (s s' : Scan) (before : List Entry) (b : Sbuf) → Saved (behind s before b) s' → Saved s s'
Saved-behind s s' before b (unchanged o c e f) = unchanged o c e f
Saved-behind s s' before b (handed e) = handed e
Saved-behind s s' before b (flagged m n e f) = flagged m n e f

Kept-Saved :
    (s s' : Scan) (before : List Entry) (o : Entry)
    → sbuf_pathcmp (to_sbuf o) s.p1b ≡ same
    → Kept (behind s before (to_sbuf o)) s'
    → Saved s s'
Kept-Saved s s' before o c (old e f) = unchanged o c e f
Kept-Saved s s' before o c (new n e) = handed e
Kept-Saved s s' before o c (asked m n e f) = flagged m n e f

module _ {Ok : Entry → Type 0} (src : Source false Ok) where
  -- No entry that is gone comes behind the one of phase 1, and what is left begins behind it.
  pub record Left (s : Scan) (olds : List Entry) (s' : Scan) (m : Option Stream) : Type 0 where
    pub gone : List Entry
    pub rest : List Entry
    pub split : olds ≡ gone ++ rest
    pub passed : All (λ o. sbuf_pathcmp (to_sbuf o) s.p1b ≢ more) gone
    pub remains : Remains src m s'.cb rest
    pub saved : Saved s s'

  not_more :
      (s : Scan) (before : List Entry)
      → All (Before s.p1b) before
      → All (λ o. sbuf_pathcmp (to_sbuf o) s.p1b ≢ more) before
  not_more s before h = All-map _ _ before (λ o p q. ground (arith, p, q)) h

  missing-Left :
      (s : Scan) (olds : List Entry) (b : Sbuf)
      → All (Before s.p1b) olds
      → Left s olds (process_new (behind s olds b)).1 none
  missing-Left s olds b a = record {
    gone = olds;
    rest = [];
    split = sym (append-nil olds);
    passed = not_more s olds a;
    remains = closed refl refl;
    saved = Saved-behind s _ olds b (process_new-Saved (behind s olds b));
  }

  ahead-Left :
      (s : Scan) (before : List Entry) (o : Entry) (rest : List Entry)
      → All (Before s.p1b) before
      → Left s
          (before ++ (o ∷ rest))
          (process_new (behind s before (to_sbuf o))).1
          (some (src.file rest))
  ahead-Left s before o rest a = record {
    gone = before;
    rest = o ∷ rest;
    split = refl;
    passed = not_more s before a;
    remains = loaded o rest refl refl (process_new-cb (behind s before (to_sbuf o)));
    saved = Saved-behind s _ before (to_sbuf o) (process_new-Saved (behind s before (to_sbuf o)));
  }

  module _ (opens : Bool → Bytes → Bool) (conf : Conf) where
    both-Left :
        (s : Scan) (before : List Entry) (o : Entry) (rest : List Entry) (x : Ret × Scan)
        → All (Before s.p1b) before
        → sbuf_pathcmp (to_sbuf o) s.p1b ≡ same
        → Settled x
        → Keeps (behind s before (to_sbuf o)) x
        → (ends_at x (some (src.file rest))).0 ≡ done
        → Left s
            (before ++ (o ∷ rest))
            (ends_at x (some (src.file rest))).1
            (ends_at x (some (src.file rest))).2
    unfolding Settled Keeps
    both-Left s before o rest (ended, s') a c t k e = record {
      gone = before ++ (o ∷ []);
      rest = rest;
      split = sym (append_assoc before (o ∷ []) rest);
      passed = All-append _ before _ (not_more s before a) ((λ q. ground (arith, c, q)), tt);
      remains = unread refl (t.1 refl);
      saved = Kept-Saved s s' before o c (k refl);
    }
    both-Left s before o rest (done, s') a c t k e = absurd (t.0 refl)
    both-Left s before o rest (failed, s') a c t k e = ground (arith, e)
    both-Left s before o rest (fault, s') a c t k e = ground arith

    Placed-Left :
        (s : Scan) (olds : List Entry) (x : Ret × Scan × Option Stream)
        → Placed src opens conf s olds x
        → x.0 ≡ done
        → Left s olds x.1 x.2
    Placed-Left s olds x (missing b a q) e = rw q (missing-Left s olds b a)
    Placed-Left s olds x (ahead before o rest p a c q) e = rw (p, q) (ahead-Left s before o rest a)
    Placed-Left s olds x (both before o rest p a c q) e =
        rw (p, q)
          (both-Left s before o rest (process_both opens conf (behind s before (to_sbuf o))) a c
            (both-Settled opens conf (behind s before (to_sbuf o)))
            (both-Keeps opens conf (behind s before (to_sbuf o))) (rw q at e))

    -- For an entry of phase 1, where a manifest of well-formed entries is unread, its first entry
    -- is loaded, or it is closed, and the search ends with 0: the manifest is left in such a state
    -- again, no entry that is gone comes behind the one of phase 1, and that one is either in the
    -- unchanged file (as the same one of the manifest, or handed to be written), or flagged to be
    -- asked for.
    pub process_entry-Left :
        (s : Scan) (m : Option Stream) (olds : List Entry)
        → All Ok olds
        → Remains src m s.cb olds
        → (process_entry opens conf s m).0 ≡ done
        → Left s olds (process_entry opens conf s m).1 (process_entry opens conf s m).2
    process_entry-Left s m olds h r e =
        Placed-Left s olds (process_entry opens conf s m)
          (process_entry-Placed src opens conf s m olds h r) e
