-- ===== src/Phase4/Jiggle/Places.antt =====
-- Where nothing fails, `jiggle` of src/backup_phase4_server.c puts the file in place.
use mathlib.Core.Path.{subst}
use burp.Prelude.{
  ◌≡◌, ◌⊎◌, refl, ◌∙◌, sym, ap, Bool, true, false, not, ◌||◌, Option, none, some, inl, inr,
  Option-cases, [], ◌∷◌, leb, if-cases, option-cases, arith,
}
use burp.Prelude.Chars.{Bytes}
use burp.Msg.{Ret, done, is_done}
use burp.Phase4.Jiggle.{
  Disk, Librsync, Answers, Job, is_there, Run, start, put, old_compressed, write_file, set_fin,
  link_fin, link_inf, unlink_inf, nlink, set_inf, set_new, duplicate_file, do_link, inflate_file,
  inflate_or_link_oldfile, gen_rev_delta, put_patched, patched, forward, use_old, use_new, place,
  jiggle,
}
use burp.Phase4.Jiggle.Moves.{Safe}
use burp.Phase4.Jiggle.Outcome.{
  inflate_old, inflated, patch_old, outcome, fin-outcome, no_old-delta, nothing-outcome,
  delta-outcome, new-outcome, old-outcome, inflate_or_link-Inflates,
}

-- The file system does what it is asked to.
pub record Works (fs : Answers) : Type 0 where
  pub makes_fin : fs.makes_fin ≡ true
  pub makes_new : fs.makes_new ≡ true
  pub makes_rev : fs.makes_rev ≡ true
  pub opens : fs.opens ≡ true
  pub closes : fs.closes ≡ true
  pub links : fs.links ≡ true
  pub renames : fs.renames ≡ true
  pub opens_patch : fs.opens_patch ≡ true
  pub closes_patch : fs.closes_patch ≡ true

-- Signatures and deltas can be made of all files.
pub record Total (lib : Librsync) : Type 0 where
  pub signs : (n : Bytes) → (s : Bytes) × (lib.signature n ≡ some s)
  pub deltas : (s o : Bytes) → (b : Bytes) × (lib.delta s o ≡ some b)

-- No inflated file is left over where it would have to be a hard link.
abbrev pub Clear : Job → Disk → Type 0
Clear j d = (old_compressed j ≡ true) ⊎ (d.inf ≡ none)

module _ (lib : Librsync) (fs : Answers) (j : Job) (w : Works fs) (t : Total lib) where
  abbrev Succeeds : Ret × Run → Type 0
  Succeeds (v, r) = v ≡ done

  inflate_file-done :
      (o : Bytes) (r : Run) {i : Bytes}
      → inflate_old lib j o ≡ some i
      → Succeeds (inflate_file lib fs j o r)
  unfolding inflate_file
  inflate_file-done [] r {i} e = rw w.closes refl
  inflate_file-done (c ∷ o) r {i} e =
      option-cases Succeeds (lib.inflate (c ∷ o)) _ _ (λ h. let chain = sym h ∙ e in ground arith)
        (λ b h. rw w.closes refl)

  link-done :
      (set : Option Bytes → Disk → Disk) (link : Bytes → Disk → Disk) (there alias : Bool)
      (o : Bytes) (r : Run)
      → there ≡ false
      → Succeeds (do_link lib fs j set link there alias o r)
  unfolding do_link duplicate_file
  link-done set link there alias o r e =
      if-cases Succeeds (leb j.max_hardlinks (nlink r.disk)) _ _ (λ f. rw w.opens refl)
        (λ f. rw (e, w.links) refl)

  inflate_or_link-done :
      (o : Bytes) (r : Run) {i : Bytes}
      → r.disk.old ≡ some o
      → inflated lib j o ≡ some i
      → Clear j r.disk
      → Succeeds (inflate_or_link_oldfile lib fs j r)
  unfolding inflate_or_link_oldfile
  inflate_or_link-done o r {i} e g c =
      option-cases Succeeds r.disk.old _ _ (λ k. ground arith)
        (λ b k.
          let same : o ≡ b = ground arith in
          if-cases Succeeds (not (old_compressed j)) _ _
            (λ l. link-done set_inf link_inf (is_there r.disk.inf) r.disk.linked b r (unlinked l))
            (λ l.
              let un : inflated lib j o ≡ inflate_old lib j o = rw l refl in
              rw w.opens (
                inflate_file-done b r
                  (subst (λ z. inflate_old lib j z ≡ some i) same (sym un ∙ g)))))
    where
      not-both : {b : Bool} → b ≡ true → not b ≡ true → ⊥
      not-both m l = ground arith

      unlinked : not (old_compressed j) ≡ true → is_there r.disk.inf ≡ false
      unlinked l = elim c [ inl m ↦ absurd (not-both m l) | inr m ↦ rw m refl ]

  gen_rev_delta-done : (o n : Bytes) (r : Run) → Succeeds (gen_rev_delta lib fs j o n r)
  unfolding gen_rev_delta
  gen_rev_delta-done o n r =
      let (s, e) = t.signs n in
      let (b, g) = t.deltas s o in rw (w.makes_rev, w.opens, e, w.closes, g) refl

  module _ (f : Bytes) where
    abbrev pub Placed : Ret × Run → Type 0
    Placed (v, r) = (v ≡ done) × (r.disk.fin ≡ some f)

    put_patched-Placed : (r : Run) → Placed (put_patched lib fs j f r)
    unfolding put_patched
    put_patched-Placed r =
        let P : Ret × Run → Type 0 = Placed in
        rw w.renames (if-cases P j.hardlinked _ _ (λ e. (refl, refl)) (λ e. (refl, refl)))

    patched-Placed : (o : Bytes) (r : Run) → Placed (patched lib fs j o f r)
    unfolding patched
    patched-Placed o r =
        if-cases Placed j.hardlinked _ _ (λ e. put_patched-Placed _)
          (λ e. rw (gen_rev_delta-done o f (put (unlink_inf r.disk) r)) (put_patched-Placed _))

    forward-Placed :
        (x o : Bytes) (d : Disk)
        → d.old ≡ some o
        → Clear j d
        → Safe j d
        → patch_old lib j x o ≡ some f
        → Placed (forward lib fs j x o d)
    unfolding forward
    forward-Placed x o d e c safe g = elim (Option-cases (inflated lib j o)) [
      | inl h ↦
          let chain : ◌≡◌ {A = Option Bytes} none (some f) = sym (ap through h) ∙ g in
          absurd (ground arith)
      | inr (i, h) ↦
          let v = inflate_or_link-done o (start d) e h c in
          let inf = inflate_or_link-Inflates lib fs j o (start d) safe e v ∙ h in
          let p : lib.patch i x ≡ some f = sym (ap through h) ∙ g in
          rw (v, inf, w.opens_patch, p, w.closes_patch)
            (patched-Placed o
              (write_file lib fs j set_new f (inflate_or_link_oldfile lib fs j (start d)).1))
    ]
      where
        through : Option Bytes → Option Bytes
        through z = elim z [ none ↦ none | some i ↦ lib.patch i x ]

    use_old-Placed : (d : Disk) → d.fin ≡ none → Placed (use_old lib fs j f d)
    unfolding use_old do_link duplicate_file
    use_old-Placed d e =
        let (v, r) = do_link lib fs j set_fin link_fin (is_there d.fin) false f (start d) in
        let there : is_there d.fin ≡ false = rw e refl in
        let s : v ≡ done = link-done set_fin link_fin (is_there d.fin) false f (start d) there in
        let P : Ret × Run → Type 0 = λ p. p.0 ≡ done → p.1.disk.fin ≡ some f in
        let fin : v ≡ done → r.disk.fin ≡ some f =
          if-cases P (leb j.max_hardlinks (nlink d)) _ _
            (λ g. if-cases P (not fs.opens) _ _ (λ h k. ground arith) (λ h k. refl))
            (λ g.
              if-cases P (is_there d.fin || not fs.links) _ _ (λ h k. ground arith)
                (λ h k. refl)) in
        if-cases Placed (not (is_done v)) _ _ (λ g. ground arith)
          (λ g. if-cases Placed j.hardlinked _ _ (λ h. (refl, fin s)) (λ h. (refl, fin s)))

    place-Placed :
        (d : Disk)
        → d.fin ≡ none
        → Clear j d
        → Safe j d
        → outcome lib j d ≡ some f
        → Placed (place lib fs j d)
    unfolding place use_new
    place-Placed d e c safe s =
        option-cases Placed d.delta _ _
          (λ g.
            option-cases Placed d.new _ _
              (λ k.
                option-cases Placed d.old _ _ (λ l. absurd (nothing-outcome lib j f d e g k l s))
                  (λ b l.
                    subst (λ z. Placed (use_old lib fs j z d)) (old-outcome lib j f d e g k l s)
                      (use_old-Placed d e)))
              (λ n k. rw w.renames (refl, ap some (sym (new-outcome lib j f d e g k s)))))
          (λ x g.
            option-cases Placed d.old _ _ (λ k. absurd (no_old-delta lib j f d e g k s))
              (λ o k. forward-Placed x o d k c safe (delta-outcome lib j f d e g k s)))

    -- Where the file system does what it is asked to, signatures and deltas can be made, and no
    -- inflated file is left over that would have to be a hard link: where the outcome of the files
    -- is some content, `jiggle` returns 0 and the finished file has that content.
    pub jiggle-Placed :
        (d : Disk)
        → Clear j d
        → (d.fin ≡ none → Safe j d)
        → outcome lib j d ≡ some f
        → Placed (jiggle lib fs j d)
    unfolding jiggle
    jiggle-Placed d c safe s =
        if-cases Placed (is_there d.fin) _ _
          (λ e.
            let fin = fin-outcome lib j f d e s in
            (
              refl,
              if-cases (λ (r : Run). r.disk.fin ≡ some f) (is_there d.delta) _ _ (λ g. fin)
                  (λ g. fin),
            ))
          (λ e.
            rw (w.makes_fin, w.makes_new)
              (let e' : d.fin ≡ none = ground arith in place-Placed d e' c (safe e') s))
