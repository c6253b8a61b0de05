-- ===== src/Phase4/Deletions/Run.antt =====
-- The loop of `maybe_delete_files_from_manifest` in src/backup_phase4_server.c on well-formed
-- manifests.
pub mod Whole
use burp.Prelude.{
  ℕ, zero, suc, ◌+◌, ◌-◌, ◌≤◌, ◌<◌, ◌≡◌, refl, ◌∙◌, sym, ap, Bool, true, false, ◌||◌, Option, none,
  some, List, [], ◌∷◌, ◌++◌, arith, length, length-append, All,
}
use burp.Prelude.Chars.{Bytes}
use burp.Msg.{done, Sink, Stream}
use burp.Path.{less, same, more}
use burp.Sbuf.{Sbuf, init_sbuf}
use burp.Sbuf.Entry.{Entry, to_sbuf, IsEntry, messages}
use burp.Sbuf.Manifest.Writes.{Writes-entry}
use burp.Phase3.{is_open, load, bad}
use burp.Phase3.Merge.{entry_cmp, all_messages}
use burp.Phase3.Load.{stream, Rep, unread, taken, closed, loaded_fp, loaded_b, Loads, load-Rep}
use burp.Phase3.Run.{wrote, wrote-wrote, Rep-open, Rep-end, open-right, open-left}
use burp.Phase3.Run.Whole.{fits-cons, wrote-nil, or-false, length_le}
use burp.Phase4.Deletions.{
  Deleting, Round, go_on, give_up, write_mb, delete_step, delete_round, delete_loop, Cleaned,
  delete_finish, maybe_delete_files_from_manifest,
}
use burp.Phase4.Deletions.Subtract.{
  subtract, subtract-less, subtract-same, subtract-more, Without, subtract-Without,
}

-- The state once both files are loaded.
abbrev held : List Entry → List Entry → Sink → Deleting
held ms ds k = record {
  dfp = loaded_fp ds;
  omzp = loaded_fp ms;
  db = loaded_b ds;
  mb = loaded_b ms;
  nmzp = k;
}

abbrev over : Sink → Deleting
over k = record { dfp = none; omzp = none; db = init_sbuf; mb = init_sbuf; nmzp = k }

-- `s` stands for the manifest `ms` and the deletions `ds`, with room for what is left.
record Ready (s : Deleting) (ms ds : List Entry) : Type 0 where
  all_ms : All IsEntry ms
  all_ds : All IsEntry ds
  manifest : Rep s.omzp s.mb ms
  dels : Rep s.dfp s.db ds
  fits : length (all_messages (subtract ms ds)) ≤ s.nmzp.room

round-held :
    (s : Deleting) (ms ds : List Entry)
    → Ready s ms ds
    → delete_round s ≡ delete_step (held ms ds s.nmzp)
unfolding delete_round
round-held s ms ds h =
    let (a, b, c) = load-Rep _ _ ds h.all_ds h.dels in
    let (d, e, f) = load-Rep _ _ ms h.all_ms h.manifest in rw (a, d, b, c, e, f) refl

write_mb-lem :
    (s : Deleting) (x : Entry)
    → IsEntry x
    → length (messages x) ≤ s.nmzp.room
    → s.mb ≡ to_sbuf x
    → write_mb s ≡ go_on (record s { nmzp = wrote (messages x) s.nmzp; mb = init_sbuf })
unfolding write_mb
write_mb-lem s x h r e = rw e (rw ((Writes-entry x h).at s.nmzp r) refl)

step-last :
    (m : Entry) (ms : List Entry) (k : Sink)
    → IsEntry m
    → length (messages m) ≤ k.room
    → delete_step (held (m ∷ ms) [] k)
      ≡ go_on (record (held (m ∷ ms) [] (wrote (messages m) k)) { mb = init_sbuf })
unfolding delete_step
step-last m ms k h r = write_mb-lem (held (m ∷ ms) [] k) m h r refl

step-unused :
    (d : Entry) (ds : List Entry) (k : Sink)
    → delete_step (held [] (d ∷ ds) k) ≡ go_on (record (held [] (d ∷ ds) k) { db = init_sbuf })
unfolding delete_step
step-unused d ds k = refl

module _ (m d : Entry) (ms ds : List Entry) (k : Sink) where
  step-less :
      IsEntry m
      → length (messages m) ≤ k.room
      → entry_cmp m d ≡ less
      → delete_step (held (m ∷ ms) (d ∷ ds) k)
        ≡ go_on (record (held (m ∷ ms) (d ∷ ds) (wrote (messages m) k)) { mb = init_sbuf })
  unfolding delete_step
  step-less h r e = rw (e, delete_step) (write_mb-lem (held (m ∷ ms) (d ∷ ds) k) m h r refl)

  step-same :
      entry_cmp m d ≡ same
      → delete_step (held (m ∷ ms) (d ∷ ds) k)
        ≡ go_on (record (held (m ∷ ms) (d ∷ ds) k) { mb = init_sbuf; db = init_sbuf })
  unfolding delete_step
  step-same e = rw (e, delete_step) refl

  step-more :
      entry_cmp m d ≡ more
      → delete_step (held (m ∷ ms) (d ∷ ds) k)
        ≡ go_on (record (held (m ∷ ms) (d ∷ ds) k) { db = init_sbuf })
  unfolding delete_step
  step-more e = rw (e, delete_step) refl

abbrev Loops : ℕ → Deleting → List Entry → Type 0
Loops f s zs = delete_loop f s ≡ (done, over (wrote (all_messages zs) s.nmzp))

loop-go :
    (f : ℕ) (s : Deleting) {s' : Deleting}
    → is_open s.omzp || is_open s.dfp ≡ true
    → delete_round s ≡ go_on s'
    → delete_loop (suc f) s ≡ delete_loop f s'
unfolding delete_loop
loop-go f s o e = rw (o, e) refl

loop-closed :
    (f : ℕ) (s : Deleting)
    → is_open s.omzp || is_open s.dfp ≡ false
    → delete_loop (suc f) s ≡ (done, s)
unfolding delete_loop
loop-closed f s o = rw o refl

-- A round that writes `z`, where the rest is written behind it.
emit :
    (f : ℕ) (s s' : Deleting) (zs : List Entry) (z : Entry) (rest : List Entry)
    → zs ≡ z ∷ rest
    → is_open s.omzp || is_open s.dfp ≡ true
    → delete_round s ≡ go_on s'
    → s'.nmzp ≡ wrote (messages z) s.nmzp
    → Loops f s' rest
    → Loops (suc f) s zs
emit f s s' zs z rest e o r k ih = rw e (
    loop-go f s o r
    ∙ ih
    ∙ ap (λ m. (done, over (wrote (all_messages rest) m))) k
    ∙ ap (λ m. (done, over m)) (wrote-wrote (messages z) (all_messages rest) s.nmzp))

-- A round that writes nothing.
skip :
    (f : ℕ) (s s' : Deleting) (zs rest : List Entry)
    → zs ≡ rest
    → is_open s.omzp || is_open s.dfp ≡ true
    → delete_round s ≡ go_on s'
    → s'.nmzp ≡ s.nmzp
    → Loops f s' rest
    → Loops (suc f) s zs
skip f s s' zs rest e o r k ih =
    rw e (loop-go f s o r ∙ ih ∙ ap (λ m. (done, over (wrote (all_messages rest) m))) k)

-- Room for a list is room for one that it equals.
same-fits :
    (zs rest : List Entry) (room : ℕ)
    → zs ≡ rest
    → length (all_messages zs) ≤ room
    → length (all_messages rest) ≤ room
same-fits zs rest room e h = rw⁻¹ e h

over-closed :
    (s : Deleting)
    → (s.omzp ≡ none) × (s.mb ≡ init_sbuf)
    → (s.dfp ≡ none) × (s.db ≡ init_sbuf)
    → s ≡ over s.nmzp
over-closed s (a, b) (c, d) = rw (a, b, c, d) refl

loop-nil :
    (f : ℕ) (s : Deleting) (o : Bool)
    → is_open s.omzp || is_open s.dfp ≡ o
    → Ready s [] []
    → Loops (suc (suc f)) s []
unfolding delete_step
loop-nil f s true o h =
    loop-go (suc f) s o (round-held s [] [] h)
    ∙ loop-closed f (held [] [] s.nmzp) refl
    ∙ ap (λ k. (done, over k)) (sym (wrote-nil s.nmzp))
loop-nil f s false o h =
    let (l, r) = or-false o in
    loop-closed (suc f) s o
    ∙ ap (λ k. (done, k)) (over-closed s (Rep-end h.manifest l) (Rep-end h.dels r))
    ∙ ap (λ k. (done, over k)) (sym (wrote-nil s.nmzp))
