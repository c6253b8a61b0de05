-- ===== src/Phase2/Rounds/Placed.antt =====
-- The search for an entry of phase 1 in the manifest of the last backup, in the loop of
-- src/backup_phase2_server.c: where it ends, and what it leaves of the manifest.
use burp.Prelude.{
  ℕ, zero, suc, ◌+◌, ◌<◌, ◌≡◌, refl, ap, ◌∙◌, Bool, false, Option, none, some, List, [], ◌∷◌, ◌++◌,
  arith, length, All,
}
use burp.Prelude.Chars.{Bytes}
use burp.Counter.{Cntr, do_filecounter_deleted}
use burp.Msg.{Ret, done, ended, failed, fault, Stream}
use burp.Path.{Cmp, less, same, more}
use burp.Sbuf.{Sbuf, init_sbuf}
use burp.Sbuf.Compare.{sbuf_pathcmp}
use burp.Sbuf.Entry.{Entry, to_sbuf}
use burp.Sbuf.Fill.{sbuf_fill}
use burp.Phase1.Forward.{Source}
use burp.Phase2.{Conf, Scan, process_new, process_both}
use burp.Phase2.Rounds.{
  Look, found, further, compare_entry, look_at, search, process_ahead, process_entry,
}
use burp.Phase2.Rounds.Search.{
  Settled, goes_on, by_order, process_new-done, both-Settled, compare-order,
}

-- The counters behind entries that are gone.
pub deleted : List Entry → Option Cntr → Option Cntr
deleted [] c = c
deleted (e ∷ es) c = deleted es (do_filecounter_deleted e.cmd c)

-- The state of the scan behind such entries, with `b` loaded.
abbrev pub behind : Scan → List Entry → Sbuf → Scan
behind s before b = record s { cb = b; cntr = deleted before s.cntr }

abbrev pub Before : Sbuf → Entry → Type 0
Before p1b e = sbuf_pathcmp (to_sbuf e) p1b ≡ less

-- The search ends at an entry that both lists have.
abbrev pub ends_at : Ret × Scan → Option Stream → Ret × Scan × Option Stream
ends_at (ended, s) m = (done, s, m)
ends_at (done, s) m = (failed, s, m)
ends_at (failed, s) m = (failed, s, m)
ends_at (fault, s) m = (fault, s, m)

module _ {Ok : Entry → Type 0} (src : Source false Ok) where
  -- Where the search for the entry of phase 1 in `olds` ends: all of them come before it and the
  -- manifest is closed, or the first that does not comes behind it, or is the same. The entry is new
  -- in the first two cases.
  pub data Placed (opens : Bool → Bytes → Bool) (conf : Conf) (s : Scan) (olds : List Entry)
      (x : Ret × Scan × Option Stream) : Type 0 where
    missing :
        (b : Sbuf)
        → All (Before s.p1b) olds
        → x ≡ (done, (process_new (behind s olds b)).1, none)
        → Placed opens conf s olds x
    ahead :
        (before : List Entry) (o : Entry) (rest : List Entry)
        → olds ≡ before ++ (o ∷ rest)
        → All (Before s.p1b) before
        → sbuf_pathcmp (to_sbuf o) s.p1b ≡ more
        → x ≡ (done, (process_new (behind s before (to_sbuf o))).1, some (src.file rest))
        → Placed opens conf s olds x
    both :
        (before : List Entry) (o : Entry) (rest : List Entry)
        → olds ≡ before ++ (o ∷ rest)
        → All (Before s.p1b) before
        → sbuf_pathcmp (to_sbuf o) s.p1b ≡ same
        → x ≡ ends_at (process_both opens conf (behind s before (to_sbuf o))) (some (src.file rest))
        → Placed opens conf s olds x

  module _ (opens : Bool → Bytes → Bool) (conf : Conf) where
    -- How a search goes on behind an entry.
    abbrev goes : ℕ → Look → Ret × Scan × Option Stream
    goes f (found r s m) = (r, s, m)
    goes f (further s st) = search opens conf f s st

    Placed-further :
        (s : Scan) (e : Entry) (es : List Entry) (x : Ret × Scan × Option Stream)
        → Before s.p1b e
        → Placed opens conf (behind s (e ∷ []) (to_sbuf e)) es x
        → Placed opens conf s (e ∷ es) x
    unfolding deleted
    Placed-further s e es x h (missing b a q) = missing b (h, a) q
    Placed-further s e es x h (ahead before o rest p a c q) =
        ahead (e ∷ before) o rest (ap (λ z. e ∷ z) p) (h, a) c q
    Placed-further s e es x h (both before o rest p a c q) =
        both (e ∷ before) o rest (ap (λ z. e ∷ z) p) (h, a) c q

    goes-both :
        (f : ℕ) (x : Ret × Scan) (st : Stream)
        → Settled x
        → goes f (goes_on x st) ≡ ends_at x (some st)
    unfolding Settled
    goes-both f (done, s) st h = absurd (h.0 refl)
    goes-both f (ended, s) st h = refl
    goes-both f (failed, s) st h = refl
    goes-both f (fault, s) st h = refl

    -- The first entry, loaded; `next` is the search behind it.
    compare-Placed :
        (f : ℕ) (s : Scan) (e : Entry) (es : List Entry)
        → ((s' : Scan) → Placed opens conf s' es (search opens conf f s' (src.file es)))
        → Placed opens conf s
            (e ∷ es)
            (goes f (compare_entry opens conf (behind s [] (to_sbuf e)) (src.file es)))
    unfolding deleted
    compare-Placed f s e es next = by (sbuf_pathcmp (to_sbuf e) s.p1b) refl
      where
        at : Scan
        at = behind s [] (to_sbuf e)

        to :
            (c : Cmp)
            → sbuf_pathcmp (to_sbuf e) s.p1b ≡ c
            → goes f (compare_entry opens conf at (src.file es))
              ≡ goes f (goes_on (by_order opens conf at c) (src.file es))
        to c h = ap (goes f) (compare-order opens conf at (src.file es) c h)

        by :
            (c : Cmp)
            → sbuf_pathcmp (to_sbuf e) s.p1b ≡ c
            → Placed opens conf s (e ∷ es) (goes f (compare_entry opens conf at (src.file es)))
        by less h =
            rw (to less h) (Placed-further s e es _ h (next (behind s (e ∷ []) (to_sbuf e))))
        by more h = ahead [] e es refl tt h (to more h)
        by same h = both [] e es refl tt h (
            to same h
            ∙ goes-both f (process_both opens conf at) (src.file es) (both-Settled opens conf at))

    search-step :
        (f : ℕ) (s : Scan) (st : Stream) (g : Ret × Sbuf × Stream)
        → sbuf_fill init_sbuf st ≡ g
        → search opens conf (suc f) s st ≡ goes f (look_at opens conf g s)
    unfolding search
    search-step f s st g e = ap (λ x. goes f (look_at opens conf x s)) e

    search-Placed :
        (f : ℕ) (s : Scan) (olds : List Entry)
        → length olds < f
        → All Ok olds
        → Placed opens conf s olds (search opens conf f s (src.file olds))
    unfolding deleted look_at
    search-Placed zero s olds l h = absurd (omega (arith, l))
    search-Placed (suc f) s [] l h = missing src.part tt (
        search-step f s (src.file []) _ src.ends
        ∙ rw (process_new-done (behind s [] src.part)) refl)
    search-Placed (suc f) s (e ∷ es) l h =
        rw (search-step f s (src.file (e ∷ es)) _ (src.gives e es h.0))
          (compare-Placed f s e es (λ s'. search-Placed f s' es (omega arith) h.1))

  -- What of the manifest is left: nothing of it is loaded, or its first entry is, or it is closed.
  pub data Remains (m : Option Stream) (cb : Sbuf) (olds : List Entry) : Type 0 where
    unread : m ≡ some (src.file olds) → cb ≡ init_sbuf → Remains m cb olds
    loaded :
        (o : Entry) (rest : List Entry)
        → olds ≡ o ∷ rest
        → m ≡ some (src.file rest)
        → cb ≡ to_sbuf o
        → Remains m cb olds
    closed : m ≡ none → olds ≡ [] → Remains m cb olds

  module _ (opens : Bool → Bytes → Bool) (conf : Conf) (s : Scan) (olds : List Entry) where
    unread-Placed :
        All Ok olds
        → Placed opens conf
            (record s { cb = init_sbuf })
            olds
            (process_entry opens conf (record s { cb = init_sbuf }) (some (src.file olds)))
    unfolding process_entry
    unread-Placed h =
        search-Placed opens conf (length (src.file olds).unread + 1) (record s { cb = init_sbuf })
          olds (src.longer olds) h

    closed-Placed : Placed opens conf s [] (process_entry opens conf s none)
    unfolding process_entry deleted
    closed-Placed = missing s.cb tt (rw (process_new-done s) refl)

  loaded-Placed :
      (opens : Bool → Bytes → Bool) (conf : Conf) (s : Scan) (o : Entry) (rest : List Entry)
      → All Ok rest
      → Placed opens conf
          (record s { cb = to_sbuf o })
          (o ∷ rest)
          (process_entry opens conf (record s { cb = to_sbuf o }) (some (src.file rest)))
  unfolding process_entry process_ahead deleted
  loaded-Placed opens conf s o rest h =
      let f = length (src.file rest).unread + 1 in
      compare-Placed opens conf f (record s { cb = to_sbuf o }) o rest
        (λ s'. search-Placed opens conf f s' rest (src.longer rest) h)

  -- For a manifest of well-formed entries that is unread, of which the first entry is loaded, or
  -- that is closed, the search for an entry of phase 1 ends at the first entry that is not before
  -- it: the result is that of `process_both` if they are the same, and that of `process_new` if it
  -- comes behind or if there is none, and then the manifest is closed; each entry that was passed
  -- is counted as deleted, nothing else changes.
  pub process_entry-Placed :
      (opens : Bool → Bytes → Bool) (conf : Conf) (s : Scan) (m : Option Stream) (olds : List Entry)
      → All Ok olds
      → Remains m s.cb olds
      → Placed opens conf s olds (process_entry opens conf s m)
  process_entry-Placed opens conf s m olds h (unread e f) =
      rw (e, f) (unread-Placed opens conf s olds h)
  process_entry-Placed opens conf s m olds h (loaded o rest e f g) =
      rw (e, f, g)
        (loaded-Placed opens conf s o rest (let k : All Ok (o ∷ rest) = rw e at h in k.1))
  process_entry-Placed opens conf s m olds h (closed e f) =
      rw (e, f) (closed-Placed opens conf s [])
