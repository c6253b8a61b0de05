-- ===== src/Phase3/Run.antt =====
-- The rounds of the loop of src/backup_phase3_server.c on well-formed manifests.
pub mod Whole
pub mod Lossless
use mathlib.Core.List.{append_assoc, append-nil, cons≢nil}
use burp.Prelude.{
  ℕ, zero, suc, ◌+◌, ◌-◌, ◌≤◌, ◌<◌, ◌≡◌, ◌≢◌, refl, ◌∙◌, sym, ap, Bool, true, false, not, ◌&&◌,
  ◌||◌, Option, none, some, List, [], ◌∷◌, ◌++◌, arith, if◌then◌else◌, length, length-append, All,
}
use burp.Prelude.Chars.{Bytes}
use burp.Msg.{Ret, done, ended, failed, fault, is_done, Stream, Sink}
use burp.Msg.RoundTrip.{short_read}
use burp.Path.{Cmp, less, same, more}
use burp.Sbuf.{Sbuf, init_sbuf}
use burp.Sbuf.Entry.{Entry, to_sbuf, IsEntry, messages}
use burp.Sbuf.Fill.{sbuf_fill}
use burp.Sbuf.Fill.Reads.{fill-messages, fill-end}
use burp.Sbuf.Manifest.{sbuf_to_fp}
use burp.Sbuf.Manifest.Writes.{Writes-entry}
use burp.Sbuf.Compare.{sbuf_pathcmp}
use burp.Phase3.{
  Merging, Next, continue, stop, has, is_open, load, bad, is_ended, write_uc, write_p2, write_same,
  merge_step, round, loop, Outcome, finish, backup_phase3_server,
}
use burp.Phase3.Load.{stream, Rep, unread, taken, closed, loaded_fp, loaded_b, Loads, load-Rep}
use burp.Phase3.Merge.{entry_cmp, merge, all_messages}

abbrev pub wrote : Bytes → Sink → Sink
wrote bs k = record { written = k.written ++ bs; room = k.room - length bs }

pub wrote-wrote : (a b : Bytes) (k : Sink) → wrote b (wrote a k) ≡ wrote (a ++ b) k
wrote-wrote a b k = ground (arith, append_assoc k.written a b, length-append a b)

-- The state once both files are loaded.
abbrev loaded : List Entry → List Entry → Sink → Merging
loaded xs ys k = record {
  ucfp = loaded_fp xs;
  p2fp = loaded_fp ys;
  ucb = loaded_b xs;
  p2b = loaded_b ys;
  mp = k;
}

round-loaded :
    (s : Merging) (xs ys : List Entry)
    → Loads s.ucfp s.ucb xs
    → Loads s.p2fp s.p2b ys
    → round false s ≡ merge_step (loaded xs ys s.mp)
unfolding round
round-loaded s xs ys (a, b, c) (d, e, f) =
    let g : is_ended (load s.p2fp s.p2b).0 && false ≡ false =
      elim (is_ended (load s.p2fp s.p2b).0) as (λ v. v && false ≡ false) [
        | true ↦ refl
        | false ↦ refl
      ] in
    rw (a, d, g, b, c, e, f) refl

module _ (s : Merging) (x : Entry) (h : IsEntry x) (r : length (messages x) ≤ s.mp.room) where
  write_uc-lem :
      s.ucb ≡ to_sbuf x
      → write_uc s ≡ continue (record s { mp = wrote (messages x) s.mp; ucb = init_sbuf })
  unfolding write_uc
  write_uc-lem e = rw e (rw ((Writes-entry x h).at s.mp r) refl)

  write_p2-lem :
      s.p2b ≡ to_sbuf x
      → write_p2 s ≡ continue (record s { mp = wrote (messages x) s.mp; p2b = init_sbuf })
  unfolding write_p2
  write_p2-lem e = rw e (rw ((Writes-entry x h).at s.mp r) refl)

  write_same-lem :
      s.p2b ≡ to_sbuf x
      → write_same s
        ≡ continue (record s { mp = wrote (messages x) s.mp; p2b = init_sbuf; ucb = init_sbuf })
  unfolding write_same
  write_same-lem e = rw e (rw ((Writes-entry x h).at s.mp r) refl)

-- The state at the end of the loop.
abbrev finished : Sink → Merging
finished k = record { ucfp = none; p2fp = none; ucb = init_sbuf; p2b = init_sbuf; mp = k }

loop-go :
    (f : ℕ) (s : Merging) {s' : Merging}
    → is_open s.ucfp || is_open s.p2fp ≡ true
    → round false s ≡ continue s'
    → loop (suc f) false s ≡ loop f false s'
unfolding loop
loop-go f s o e = rw (o, e) refl

loop-closed :
    (f : ℕ) (s : Merging)
    → is_open s.ucfp || is_open s.p2fp ≡ false
    → loop (suc f) false s ≡ (done, s)
unfolding loop
loop-closed f s o = rw o refl

-- A round that writes an entry, and the rounds behind it.
loop-emit :
    (f : ℕ) (s s' : Merging) (x : Entry) (rest : List Entry)
    → is_open s.ucfp || is_open s.p2fp ≡ true
    → round false s ≡ continue s'
    → s'.mp ≡ wrote (messages x) s.mp
    → loop f false s' ≡ (done, finished (wrote (all_messages rest) s'.mp))
    → loop (suc f) false s ≡ (done, finished (wrote (all_messages (x ∷ rest)) s.mp))
loop-emit f s s' x rest o e k ih =
    loop-go f s o e
    ∙ ih
    ∙ ap (λ m. (done, finished (wrote (all_messages rest) m))) k
    ∙ ap (λ m. (done, finished m)) (wrote-wrote (messages x) (all_messages rest) s.mp)

pub Rep-open :
    {fp : Option Stream} {b : Sbuf} {x : Entry} {xs : List Entry}
    → Rep fp b (x ∷ xs)
    → is_open fp ≡ true
Rep-open (unread e f) = rw e refl
Rep-open (taken x' rest e f g) = rw f refl
Rep-open (closed e f g) = absurd (cons≢nil g)

pub Rep-end :
    {fp : Option Stream} {b : Sbuf}
    → Rep fp b []
    → is_open fp ≡ false
    → (fp ≡ none) × (b ≡ init_sbuf)
Rep-end (unread e f) o = ground arith
Rep-end (taken x' rest e f g) o = absurd (cons≢nil (sym e))
Rep-end (closed e f g) o = (e, f)

pub open-right : (a : Bool) {b : Bool} → b ≡ true → a || b ≡ true
open-right true e = refl
open-right false e = e

pub open-left : {a : Bool} (b : Bool) → a ≡ true → a || b ≡ true
open-left b e = rw e refl

module _ (x : Entry) (xs : List Entry) (k : Sink) (h : IsEntry x)
    (r : length (messages x) ≤ k.room) where
  step-left :
      merge_step (loaded (x ∷ xs) [] k)
      ≡ continue (record (loaded [] [] (wrote (messages x) k)) { ucfp = some (stream xs) })
  unfolding merge_step
  step-left = write_uc-lem (loaded (x ∷ xs) [] k) x h r refl

  step-right :
      merge_step (loaded [] (x ∷ xs) k)
      ≡ continue (record (loaded [] [] (wrote (messages x) k)) { p2fp = some (stream xs) })
  unfolding merge_step
  step-right = write_p2-lem (loaded [] (x ∷ xs) k) x h r refl

module _ (x y : Entry) (xs ys : List Entry) (k : Sink) where
  step-less :
      IsEntry x
      → length (messages x) ≤ k.room
      → entry_cmp x y ≡ less
      → merge_step (loaded (x ∷ xs) (y ∷ ys) k)
        ≡ continue (record (loaded (x ∷ xs) (y ∷ ys) (wrote (messages x) k)) { ucb = init_sbuf })
  unfolding merge_step
  step-less h r e = rw (e, merge_step) (write_uc-lem (loaded (x ∷ xs) (y ∷ ys) k) x h r refl)

  step-same :
      IsEntry y
      → length (messages y) ≤ k.room
      → entry_cmp x y ≡ same
      → merge_step (loaded (x ∷ xs) (y ∷ ys) k)
        ≡ continue (record (loaded (x ∷ xs) (y ∷ ys) (wrote (messages y) k)) {
          ucb = init_sbuf;
          p2b = init_sbuf;
        })
  unfolding merge_step
  step-same h r e = rw (e, merge_step) (write_same-lem (loaded (x ∷ xs) (y ∷ ys) k) y h r refl)

  step-more :
      IsEntry y
      → length (messages y) ≤ k.room
      → entry_cmp x y ≡ more
      → merge_step (loaded (x ∷ xs) (y ∷ ys) k)
        ≡ continue (record (loaded (x ∷ xs) (y ∷ ys) (wrote (messages y) k)) { p2b = init_sbuf })
  unfolding merge_step
  step-more h r e = rw (e, merge_step) (write_p2-lem (loaded (x ∷ xs) (y ∷ ys) k) y h r refl)
