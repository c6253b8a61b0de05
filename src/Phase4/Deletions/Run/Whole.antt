-- ===== src/Phase4/Deletions/Run/Whole.antt =====
-- The whole loop of `maybe_delete_files_from_manifest` in src/backup_phase4_server.c.
use burp.Prelude.{
  ℕ, zero, suc, ◌+◌, ◌≤◌, ◌≡◌, ◌||◌, refl, ◌∙◌, sym, ap, true, some, List, [], ◌∷◌, arith, length,
  All,
}
use burp.Msg.{done}
use burp.Path.{less, same, more}
use burp.Sbuf.{init_sbuf}
use burp.Sbuf.Entry.{Entry, IsEntry}
use burp.Phase3.{is_open}
use burp.Phase3.Merge.{entry_cmp, all_messages}
use burp.Phase3.Load.{stream, unread, taken, closed}
use burp.Phase3.Run.{Rep-open, open-right, open-left}
use burp.Phase3.Run.Whole.{fits-cons, length_le}
use burp.Phase4.Deletions.{Deleting, delete_finish, maybe_delete_files_from_manifest}
use burp.Phase4.Deletions.Subtract.{
  subtract, subtract-less, subtract-same, subtract-more, Without, subtract-Without,
}
use burp.Phase4.Deletions.Run.{
  Ready, round-held, step-last, step-unused, step-less, step-same, step-more, Loops, emit, skip,
  same-fits, loop-nil,
}

-- What the loop does in `f` rounds.
abbrev Deletes : ℕ → Type 0
Deletes f =
    (s : Deleting) (ms ds : List Entry)
    → Ready s ms ds
    → length ms + length ds + 2 ≤ f
    → Loops f s (subtract ms ds)

module _ (f : ℕ) (s : Deleting) (m d : Entry) (ms ds : List Entry) (h : Ready s (m ∷ ms) (d ∷ ds))
    (n : length ms + length ds + 3 ≤ f) (again : Deletes f) where
  open_now : is_open s.omzp || is_open s.dfp ≡ true
  open_now = open-left (is_open s.dfp) (Rep-open h.manifest)

  emit-less : entry_cmp m d ≡ less → Loops (suc f) s (subtract (m ∷ ms) (d ∷ ds))
  emit-less e =
      let l = subtract-less m d ms ds e in
      let (a, b) = fits-cons _ m _ s.nmzp.room l h.fits in
      emit f s _ _ m (subtract ms (d ∷ ds)) l open_now
        (round-held s _ _ h ∙ step-less m d ms ds s.nmzp h.all_ms.0 a e) refl
        (again _ ms (d ∷ ds)
          (record {
            all_ms = h.all_ms.1;
            all_ds = h.all_ds;
            manifest = unread refl refl;
            dels = taken d ds refl refl refl;
            fits = b;
          })
          (omega arith))

  skip-same : entry_cmp m d ≡ same → Loops (suc f) s (subtract (m ∷ ms) (d ∷ ds))
  skip-same e =
      let l = subtract-same m d ms ds e in
      skip f s _ _ (subtract ms ds) l open_now (round-held s _ _ h ∙ step-same m d ms ds s.nmzp e)
        refl
        (again _ ms ds
          (record {
            all_ms = h.all_ms.1;
            all_ds = h.all_ds.1;
            manifest = unread refl refl;
            dels = unread refl refl;
            fits = same-fits _ _ s.nmzp.room l h.fits;
          })
          (omega arith))

  skip-more : entry_cmp m d ≡ more → Loops (suc f) s (subtract (m ∷ ms) (d ∷ ds))
  skip-more e =
      let l = subtract-more m d ms ds e in
      skip f s _ _ (subtract (m ∷ ms) ds) l open_now
        (round-held s _ _ h ∙ step-more m d ms ds s.nmzp e) refl
        (again _ (m ∷ ms) ds
          (record {
            all_ms = h.all_ms;
            all_ds = h.all_ds.1;
            manifest = taken m ms refl refl refl;
            dels = unread refl refl;
            fits = same-fits _ _ s.nmzp.room l h.fits;
          })
          (omega arith))

subtract-nil : (ms : List Entry) → subtract ms [] ≡ ms
unfolding subtract
subtract-nil [] = refl
subtract-nil (m ∷ ms) = refl

left-only : (m : Entry) (ms : List Entry) → subtract (m ∷ ms) [] ≡ m ∷ subtract ms []
left-only m ms = subtract-nil (m ∷ ms) ∙ ap (◌∷◌ m) (sym (subtract-nil ms))

loop-subtract : (f : ℕ) → Deletes f
unfolding subtract
loop-subtract zero s ms ds h n = absurd (omega arith)
loop-subtract (suc zero) s ms ds h n = absurd (omega arith)
loop-subtract (suc (suc f)) s [] [] h n = loop-nil f s _ refl h
loop-subtract (suc f) s (m ∷ ms) [] h n =
    let l = left-only m ms in
    let (a, b) = fits-cons _ m _ s.nmzp.room l h.fits in
    emit f s _ _ m (subtract ms []) l (open-left (is_open s.dfp) (Rep-open h.manifest))
      (round-held s _ _ h ∙ step-last m ms s.nmzp h.all_ms.0 a) refl
      (loop-subtract f _ ms []
        (record {
          all_ms = h.all_ms.1;
          all_ds = h.all_ds;
          manifest = unread refl refl;
          dels = closed refl refl refl;
          fits = b;
        })
        (omega arith))
loop-subtract (suc f) s [] (d ∷ ds) h n =
    skip f s _ [] [] refl (open-right (is_open s.omzp) (Rep-open h.dels))
      (round-held s _ _ h ∙ step-unused d ds s.nmzp) refl
      (loop-subtract f _ [] ds
        (record {
          all_ms = h.all_ms;
          all_ds = h.all_ds.1;
          manifest = closed refl refl refl;
          dels = unread refl refl;
          fits = omega arith;
        })
        (omega arith))
loop-subtract (suc f) s (m ∷ ms) (d ∷ ds) h n =
    elim (entry_cmp m d)
        as (λ c. entry_cmp m d ≡ c → Loops (suc f) s (subtract (m ∷ ms) (d ∷ ds))) [
          | less ↦ emit-less f s m d ms ds h (omega arith) (loop-subtract f)
          | same ↦ skip-same f s m d ms ds h (omega arith) (loop-subtract f)
          | more ↦ skip-more f s m d ms ds h (omega arith) (loop-subtract f)
        ]
      refl

-- On a manifest and a list of deletions made of well-formed entries, with room on the disk for the
-- result, where the close and the rename succeed, `maybe_delete_files_from_manifest` returns 0,
-- removes the list, and the new manifest holds exactly the entries of the old one, in order,
-- without some each of which `sbuf_pathcmp` takes for the same as a deletion.
pub maybe_delete-Without :
    (room : ℕ) (ms ds : List Entry)
    → All IsEntry ms
    → All IsEntry ds
    → length (all_messages (subtract ms ds)) ≤ room
    → (rest : List Entry) × Without ds ms rest
      × (maybe_delete_files_from_manifest true true room (some (stream ds)) (stream ms)
          ≡ record { ret = done; manifest = some (all_messages rest); removed = true })
unfolding maybe_delete_files_from_manifest delete_finish
maybe_delete-Without room ms ds hm hd fits = (
  subtract ms ds,
  subtract-Without ms ds,
  rw
      (loop-subtract (length (all_messages ds) + length (all_messages ms) + 3)
        (record {
          dfp = some (stream ds);
          omzp = some (stream ms);
          db = init_sbuf;
          mb = init_sbuf;
          nmzp = record { written = []; room = room };
        })
        ms ds
        (record {
          all_ms = hm;
          all_ds = hd;
          manifest = unread refl refl;
          dels = unread refl refl;
          fits = fits;
        })
        (omega (arith, length_le ms, length_le ds)))
      refl,
)
