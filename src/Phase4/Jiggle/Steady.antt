-- ===== src/Phase4/Jiggle/Steady.antt =====
-- Every write in `jiggle` of src/backup_phase4_server.c leaves the outcome as it is.
use mathlib.Core.Path.{subst}
use burp.Prelude.{
  ◌≡◌, ◌<◌, refl, ◌∙◌, sym, ap, Bool, false, not, ◌||◌, Option, none, some, leb, if-cases,
  option-cases, arith, All,
}
use burp.Prelude.Chars.{Bytes}
use burp.Msg.{Ret, done, is_done}
use burp.Phase4.Jiggle.Moves.{
  Kept, put-Kept, write_file-Kept, inflate_or_link-Kept, note_deletion-Kept, gen_rev_delta-Kept,
}
use burp.Phase4.Jiggle.{
  Disk, Librsync, Answers, Job, is_there, Run, start, put, write_file, set_fin, link_fin,
  unlink_inf, nlink, set_new, do_link, inflate_or_link_oldfile, gen_rev_delta, put_patched, patched,
  forward, use_old, use_new, place, jiggle,
}
use burp.Phase4.Jiggle.Outcome.{
  inflated, patch_old, Fine, fin-Fine, Room-Safe, few_links, Waits, Waits-Stable, fin-outcome,
  delta-outcome, new-outcome, old-outcome, inflate_or_link-Inflates,
}

module _ (lib : Librsync) (fs : Answers) (j : Job) (f : Bytes) where
  abbrev Steady : Ret × Run → Type 0
  Steady (v, r) = All (Fine lib j f) r.log

  put_patched-Steady : (r : Run) → All (Fine lib j f) r.log → Steady (put_patched lib fs j f r)
  unfolding put_patched
  put_patched-Steady r h =
      let in_place : (d : Disk) → d.fin ≡ some f → Fine lib j f d = fin-Fine lib j f in
      if-cases Steady (not fs.renames) _ _ (λ e. h)
        (λ e.
          if-cases Steady j.hardlinked _ _ (λ g. (in_place _ refl, (in_place _ refl, h)))
            (λ g. (in_place _ refl, (in_place _ refl, (in_place _ refl, h)))))

  module _ (x o : Bytes) (gives : patch_old lib j x o ≡ some f) where
    patched-Steady :
        (r : Run) → Kept (Waits lib j f x o) (Fine lib j f) r → Steady (patched lib fs j o f r)
    unfolding patched
    patched-Steady r h =
        let st = Waits-Stable lib j f x o gives in
        let r1 = put (unlink_inf r.disk) r in
        let s1 : Kept (Waits lib j f x o) (Fine lib j f) r1 =
          put-Kept lib fs j st (unlink_inf r.disk) r (st.by_unlink r.disk h.0) h in
        let g = gen_rev_delta-Kept lib fs j st o f r1 s1 in
        if-cases Steady j.hardlinked _ _ (λ e. put_patched-Steady r1 s1.1)
          (λ e.
            if-cases Steady (not (is_done (gen_rev_delta lib fs j o f r1).0)) _ _ (λ k. g.0.1)
              (λ k. put_patched-Steady _ g.0.1))

    pub patch_unique : {i n : Bytes} → inflated lib j o ≡ some i → lib.patch i x ≡ some n → f ≡ n
    patch_unique e g =
        let chain =
          sym gives
          ∙ ap (λ z. elim z as (λ y. Option Bytes) [ none ↦ none | some i ↦ lib.patch i x ]) e
          ∙ g in
        ground (arith, chain)

    forward-Steady : (d : Disk) → Waits lib j f x o d → Steady (forward lib fs j x o d)
    unfolding forward
    forward-Steady d w =
        let st = Waits-Stable lib j f x o gives in
        let safe = Room-Safe j d w.3 in
        let (v, r) = inflate_or_link_oldfile lib fs j (start d) in
        let h : Kept (Waits lib j f x o) (Fine lib j f) r =
          inflate_or_link-Kept lib fs j st (start d) safe (w, (st.good d w, tt)) in
        let inf : v ≡ done → r.disk.inf ≡ inflated lib j o =
          inflate_or_link-Inflates lib fs j o (start d) safe w.2 in
        if-cases Steady (not (is_done v)) _ _ (λ e. h.1)
          (λ e.
            option-cases Steady r.disk.inf _ _ (λ g. (note_deletion-Kept lib fs j st r h).1)
              (λ i g.
                if-cases Steady (not fs.opens_patch) _ _
                  (λ m. (note_deletion-Kept lib fs j st r h).1)
                  (λ m.
                    option-cases Steady (lib.patch i x) _ _
                      (λ k.
                        let torn = record r.disk { new = some (fs.torn x) } in
                        (note_deletion-Kept lib fs j st (put torn r)
                          (put-Kept lib fs j st torn r h.0 h)).1)
                      (λ n k.
                        let written = λ (z : Bytes). write_file lib fs j set_new z r in
                        let kept =
                          λ (z : Bytes). write_file-Kept lib fs j st set_new z r (λ b. h.0) h in
                        if-cases Steady (not fs.closes_patch) _ _
                          (λ c. (note_deletion-Kept lib fs j st (written n) (kept n)).1)
                          (λ c.
                            let unique = patch_unique (sym (inf (ground arith)) ∙ g) k in
                            subst (λ z. Steady (patched lib fs j o z (written z))) unique
                              (patched-Steady (written f) (kept f)))))))

  -- Where the link succeeds, the finished file is there.
  abbrev Linked : Ret × Run → Type 0
  Linked (v, r) = All (Fine lib j f) r.log × (v ≡ done → r.disk.fin ≡ some f)

  -- A link comes at once, a copy does not.
  link-Linked :
      (there : Bool) (d : Disk)
      → nlink d < j.max_hardlinks
      → Fine lib j f d
      → Linked (do_link lib fs j set_fin link_fin there false f (start d))
  unfolding do_link
  link-Linked there d few s =
      if-cases Linked (leb j.max_hardlinks (nlink d)) _ _ (λ g. absurd (ground arith))
        (λ g.
          if-cases Linked (there || not fs.links) _ _ (λ k. ((s, tt), (λ l. ground arith)))
            (λ k. ((fin-Fine lib j f _ refl, (s, tt)), (λ l. refl))))

  use_old-Steady :
      (d : Disk) → nlink d < j.max_hardlinks → Fine lib j f d → Steady (use_old lib fs j f d)
  unfolding use_old
  use_old-Steady d few s =
      let (v, r) = do_link lib fs j set_fin link_fin (is_there d.fin) false f (start d) in
      let h : Linked (v, r) = link-Linked (is_there d.fin) d few s in
      if-cases Steady (not (is_done v)) _ _ (λ g. h.0)
        (λ g.
          if-cases Steady j.hardlinked _ _ (λ k. h.0)
            (λ k. (fin-Fine lib j f _ (h.1 (ground arith)), h.0)))

  use_new-Steady : (d : Disk) → Fine lib j f d → Steady (use_new lib fs j f d)
  unfolding use_new
  use_new-Steady d s =
      if-cases Steady (not fs.renames) _ _ (λ k. (s, tt)) (λ k. (fin-Fine lib j f _ refl, (s, tt)))

  place-Steady : (d : Disk) → d.fin ≡ none → Fine lib j f d → Steady (place lib fs j d)
  unfolding place
  place-Steady d e s =
      let few = few_links j d (s.1 e) in
      option-cases Steady d.delta _ _
        (λ g.
          option-cases Steady d.new _ _
            (λ k.
              option-cases Steady d.old _ _ (λ l. (s, tt))
                (λ c l.
                  subst (λ z. Steady (use_old lib fs j z d)) (old-outcome lib j f d e g k l s.0)
                    (use_old-Steady d few s)))
            (λ n k.
              subst (λ z. Steady (use_new lib fs j z d)) (new-outcome lib j f d e g k s.0)
                (use_new-Steady d s)))
        (λ x g.
          option-cases Steady d.old _ _ (λ k. (s, tt))
            (λ o k. forward-Steady x o (delta-outcome lib j f d e g k s.0) d (e, g, k, s.1 e)))

  -- Whatever fails in `jiggle`, and wherever the power goes, the content that the finished file is to
  -- have stays the same, and there is room for the hard links as long as it is not there.
  pub jiggle-Fine : (d : Disk) → Fine lib j f d → All (Fine lib j f) (jiggle lib fs j d).1.log
  unfolding jiggle
  jiggle-Fine d s =
      if-cases Steady (is_there d.fin) _ _
        (λ e.
          if-cases (λ (r : Run). All (Fine lib j f) r.log) (is_there d.delta) _ _
            (λ g. (fin-Fine lib j f _ (fin-outcome lib j f d e s.0), (s, tt))) (λ g. (s, tt)))
        (λ e.
          if-cases Steady (not fs.makes_fin || not fs.makes_new) _ _ (λ g. (s, tt))
            (λ g. place-Steady d (ground arith) s))
