-- ===== src/Phase3/Run/Whole.antt =====
-- The whole loop of src/backup_phase3_server.c, and phase 3.
use mathlib.Core.List.{append-nil}
use burp.Prelude.{
  ℕ, zero, suc, ◌+◌, ◌-◌, ◌≤◌, ◌<◌, ◌≡◌, refl, ◌∙◌, sym, ap, Bool, true, false, ◌||◌, none, some,
  List, [], ◌∷◌, ◌++◌, arith, length, length-append, All,
}
use burp.Msg.{done, Sink}
use burp.Path.{less, same, more}
use burp.Cmd.{cmd_datapth, cmd_stat, cmd_end_file}
use burp.Msg.RoundTrip.{frame}
use burp.Sbuf.{init_sbuf}
use burp.Sbuf.Entry.{Entry, IsEntry, messages, frame?}
use burp.Phase3.{Merging, continue, is_open, merge_step, round, loop, finish, backup_phase3_server}
use burp.Phase3.Merge.{
  entry_cmp, merge, all_messages, merge-less, merge-same, merge-more, merge-nil,
}
use burp.Phase3.Load.{stream, Rep, unread, taken, closed, load-Rep}
use burp.Phase3.Run.{
  wrote, loaded, round-loaded, finished, loop-go, loop-closed, loop-emit, Rep-open, Rep-end,
  open-right, open-left, step-left, step-right, step-less, step-same, step-more,
}

-- `s` stands for the entries of `xs` and `ys`, with room for their merge.
record Ready (s : Merging) (xs ys : List Entry) : Type 0 where
  all_xs : All IsEntry xs
  all_ys : All IsEntry ys
  left : Rep s.ucfp s.ucb xs
  right : Rep s.p2fp s.p2b ys
  fits : length (all_messages (merge xs ys)) ≤ s.mp.room

round-Ready :
    (s : Merging) (xs ys : List Entry)
    → Ready s xs ys
    → round false s ≡ merge_step (loaded xs ys s.mp)
round-Ready s xs ys h =
    round-loaded s xs ys (load-Rep _ _ xs h.all_xs h.left) (load-Rep _ _ ys h.all_ys h.right)

abbrev Loops : ℕ → Merging → List Entry → Type 0
Loops f s zs = loop f false s ≡ (done, finished (wrote (all_messages zs) s.mp))

pub wrote-nil : (k : Sink) → wrote [] k ≡ k
wrote-nil k = let e : k.room - 0 ≡ k.room = omega arith in ground (arith, append-nil k.written)

pub or-false : {a b : Bool} → a || b ≡ false → (a ≡ false) × (b ≡ false)
or-false e = ground arith

closed-finished :
    (s : Merging)
    → s.ucfp ≡ none
    → s.ucb ≡ init_sbuf
    → s.p2fp ≡ none
    → s.p2b ≡ init_sbuf
    → s ≡ finished s.mp
closed-finished s a b c d = rw (a, b, c, d) refl

-- The first entry of the merge fits, and the rest behind it.
pub fits-cons :
    (zs : List Entry) (z : Entry) (rest : List Entry) (room : ℕ)
    → zs ≡ z ∷ rest
    → length (all_messages zs) ≤ room
    → (length (messages z) ≤ room) × (length (all_messages rest) ≤ room - length (messages z))
fits-cons zs z rest room e h =
    let h' : length (all_messages (z ∷ rest)) ≤ room = rw e at h in
    let l = length-append (messages z) (all_messages rest) in (omega arith, omega arith)

loop-nil :
    (f : ℕ) (s : Merging) (o : Bool)
    → is_open s.ucfp || is_open s.p2fp ≡ o
    → Ready s [] []
    → Loops (suc (suc f)) s []
unfolding merge_step
loop-nil f s true o h =
    loop-go (suc f) s o (round-Ready s [] [] h)
    ∙ loop-closed f (loaded [] [] s.mp) refl
    ∙ ap (λ k. (done, finished k)) (sym (wrote-nil s.mp))
loop-nil f s false o h =
    let (l, r) = or-false o in
    let (a, b) = Rep-end h.left l in
    let (c, d) = Rep-end h.right r in
    loop-closed (suc f) s o
    ∙ ap (λ k. (done, k)) (closed-finished s a b c d)
    ∙ ap (λ k. (done, finished k)) (sym (wrote-nil s.mp))

-- A round that writes `z`, where the rest of the merge is written behind it.
emit :
    (f : ℕ) (s s' : Merging) (zs : List Entry) (z : Entry) (rest : List Entry)
    → zs ≡ z ∷ rest
    → is_open s.ucfp || is_open s.p2fp ≡ true
    → round false s ≡ continue s'
    → s'.mp ≡ wrote (messages z) s.mp
    → Loops f s' rest
    → Loops (suc f) s zs
emit f s s' zs z rest e o r k ih = rw e (loop-emit f s s' z rest o r k ih)

left-only : (x : Entry) (xs : List Entry) → merge (x ∷ xs) [] ≡ x ∷ merge xs []
unfolding merge
left-only x xs = ap (◌∷◌ x) (sym (merge-nil xs))

-- What the loop does in `f` rounds.
abbrev Merges : ℕ → Type 0
Merges f =
    (s : Merging) (xs ys : List Entry)
    → Ready s xs ys
    → length xs + length ys + 2 ≤ f
    → Loops f s (merge xs ys)

module _ (f : ℕ) (s : Merging) (x y : Entry) (xs ys : List Entry) (h : Ready s (x ∷ xs) (y ∷ ys))
    (n : length xs + length ys + 3 ≤ f) (again : Merges f) where
  emit-less : entry_cmp x y ≡ less → Loops (suc f) s (merge (x ∷ xs) (y ∷ ys))
  emit-less e =
      let m = merge-less x y xs ys e in
      let (a, b) = fits-cons _ x _ s.mp.room m h.fits in
      emit f s _ _ x (merge xs (y ∷ ys)) m (open-left (is_open s.p2fp) (Rep-open h.left))
        (round-Ready s _ _ h ∙ step-less x y xs ys s.mp h.all_xs.0 a e) refl
        (again _ xs (y ∷ ys)
          (record {
            all_xs = h.all_xs.1;
            all_ys = h.all_ys;
            left = unread refl refl;
            right = taken y ys refl refl refl;
            fits = b;
          })
          (omega arith))

  emit-same : entry_cmp x y ≡ same → Loops (suc f) s (merge (x ∷ xs) (y ∷ ys))
  emit-same e =
      let m = merge-same x y xs ys e in
      let (a, b) = fits-cons _ y _ s.mp.room m h.fits in
      emit f s _ _ y (merge xs ys) m (open-left (is_open s.p2fp) (Rep-open h.left))
        (round-Ready s _ _ h ∙ step-same x y xs ys s.mp h.all_ys.0 a e) refl
        (again _ xs ys
          (record {
            all_xs = h.all_xs.1;
            all_ys = h.all_ys.1;
            left = unread refl refl;
            right = unread refl refl;
            fits = b;
          })
          (omega arith))

  emit-more : entry_cmp x y ≡ more → Loops (suc f) s (merge (x ∷ xs) (y ∷ ys))
  emit-more e =
      let m = merge-more x y xs ys e in
      let (a, b) = fits-cons _ y _ s.mp.room m h.fits in
      emit f s _ _ y (merge (x ∷ xs) ys) m (open-left (is_open s.p2fp) (Rep-open h.left))
        (round-Ready s _ _ h ∙ step-more x y xs ys s.mp h.all_ys.0 a e) refl
        (again _ (x ∷ xs) ys
          (record {
            all_xs = h.all_xs;
            all_ys = h.all_ys.1;
            left = taken x xs refl refl refl;
            right = unread refl refl;
            fits = b;
          })
          (omega arith))

loop-merge : (f : ℕ) → Merges f
unfolding merge
loop-merge zero s xs ys h n = absurd (omega arith)
loop-merge (suc zero) s xs ys h n = absurd (omega arith)
loop-merge (suc (suc f)) s [] [] h n = loop-nil f s _ refl h
loop-merge (suc f) s (x ∷ xs) [] h n =
    let m = left-only x xs in
    let (a, b) = fits-cons _ x _ s.mp.room m h.fits in
    emit f s _ _ x (merge xs []) m (open-left (is_open s.p2fp) (Rep-open h.left))
      (round-Ready s _ _ h ∙ step-left x xs s.mp h.all_xs.0 a) refl
      (loop-merge f _ xs []
        (record {
          all_xs = h.all_xs.1;
          all_ys = h.all_ys;
          left = unread refl refl;
          right = closed refl refl refl;
          fits = b;
        })
        (omega arith))
loop-merge (suc f) s [] (y ∷ ys) h n =
    let (a, b) = fits-cons _ y ys s.mp.room refl h.fits in
    emit f s _ _ y ys refl (open-right (is_open s.ucfp) (Rep-open h.right))
      (round-Ready s _ _ h ∙ step-right y ys s.mp h.all_ys.0 a) refl
      (loop-merge f _ [] ys
        (record {
          all_xs = h.all_xs;
          all_ys = h.all_ys.1;
          left = closed refl refl refl;
          right = unread refl refl;
          fits = b;
        })
        (omega arith))
loop-merge (suc f) s (x ∷ xs) (y ∷ ys) h n =
    elim (entry_cmp x y) as (λ c. entry_cmp x y ≡ c → Loops (suc f) s (merge (x ∷ xs) (y ∷ ys))) [
      | less ↦ emit-less f s x y xs ys h (omega arith) (loop-merge f)
      | same ↦ emit-same f s x y xs ys h (omega arith) (loop-merge f)
      | more ↦ emit-more f s x y xs ys h (omega arith) (loop-merge f)
    ]
      refl

messages-pos : (e : Entry) → 0 < length (messages e)
messages-pos e =
    let tail = frame e.cmd e.path ++ (frame? e.cmd e.linkto ++ frame? cmd_end_file e.endfile) in
    omega (
      arith,
      length-append (frame? cmd_datapth e.datapth) (frame cmd_stat e.statbuf ++ tail),
      length-append (frame cmd_stat e.statbuf) tail,
    )

-- There are not more entries than bytes.
pub length_le : (xs : List Entry) → length xs ≤ length (all_messages xs)
length_le [] = omega arith
length_le (x ∷ xs) =
    omega (arith, length_le xs, messages-pos x, length-append (messages x) (all_messages xs))

-- On two manifests made of well-formed entries, with room on the disk for the result, phase 3 (no
-- recovery, the close and the rename succeed) returns 0, removes the two lists, and the new
-- manifest holds exactly the merge of the two lists: the merge of sorted lists by `sbuf_pathcmp`,
-- which takes the entry of phase 2 where both have one.
pub phase3-merge :
    (room : ℕ) (xs ys : List Entry)
    → All IsEntry xs
    → All IsEntry ys
    → length (all_messages (merge xs ys)) ≤ room
    → backup_phase3_server false true true room (stream xs) (stream ys)
      ≡ record { ret = done; manifest = some (all_messages (merge xs ys)); removed = true }
unfolding backup_phase3_server finish
phase3-merge room xs ys hx hy fits =
    rw
      (loop-merge (length (all_messages xs) + length (all_messages ys) + 3)
        (record {
          ucfp = some (stream xs);
          p2fp = some (stream ys);
          ucb = init_sbuf;
          p2b = init_sbuf;
          mp = record { written = []; room = room };
        })
        xs ys
        (record {
          all_xs = hx;
          all_ys = hy;
          left = unread refl refl;
          right = unread refl refl;
          fits = fits;
        })
        (omega (arith, length_le xs, length_le ys)))
      refl
