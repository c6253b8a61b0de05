-- ===== src/Restore/Down.antt =====
-- The way down through the reverse deltas in `restore_file` of src/restore_server.c.
use burp.Prelude.{
  ℕ, ◌+◌, ◌≡◌, refl, ap, ◌∙◌, sym, Bool, true, false, not, Option, none, some, List, [], ◌∷◌, ◌==◌,
  if◌then◌else◌, if-cases, arith, Option-cases, inl, inr,
}
use burp.Prelude.Chars.{Bytes}
use burp.Msg.{Ret, done, ended, failed, fault}
use burp.Phase4.Jiggle.{Librsync}
use burp.Restore.{
  Store, Tmp, tmp1, tmp2, other, Temps, get, set, stored, temp, Work, Disk, inflate_or_link_oldfile,
  ready, do_patch, then_patch, pass, go_down,
}
use burp.Restore.Version.{plain, back, brought_back, brought_none}

-- A file system that does what it is asked to.
abbrev pub works : (Bytes → Bytes) → Disk
works torn = record { opens = true; closes = true; links = true; torn = torn }

abbrev pub begin : Bytes → Option Bytes → Work
begin f two = record {
  temps = record { one = none; two = two };
  tmp = tmp1;
  best = stored f;
  patches = 0;
}

abbrev pub between : Tmp → ℕ → Temps → Work
between t n temps = record { temps = temps; tmp = t; best = temp (other t); patches = n + 1 }

module _ (lib : Librsync) (compressed : Bool) where
  -- The files of the search hold this version.
  pub data Holds (w : Work) (v : Bytes) : Type 0 where
    first :
        (f : Bytes) (two : Option Bytes)
        → w ≡ begin f two
        → plain lib compressed f ≡ some v
        → Holds w v
    patched :
        (t : Tmp) (n : ℕ) (temps : Temps)
        → w ≡ between t n temps
        → get temps (other t) ≡ some v
        → Holds w v

  module _ (torn : Bytes → Bytes) where
    inflate-plain :
        (f v : Bytes) (two : Option Bytes)
        → plain lib compressed f ≡ some v
        → inflate_or_link_oldfile lib
            (works torn)
            compressed
            f
            tmp1
            (record { one = none; two = two })
          ≡ (done, record { one = some v; two = two })
    unfolding inflate_or_link_oldfile plain
    inflate-plain [] v two e =
        let q : ◌≡◌ {A = Ret × Temps} (done, with_one (some [])) (done, with_one (some v)) =
          ap (λ o. (done, with_one o)) e in
        if-cases (λ (r : Ret × Temps). r ≡ (done, with_one (some v))) (not compressed) _ _ (λ h. q)
          (λ h. q)
      where
        with_one : Option Bytes → Temps
        with_one o = record { one = o; two = two }
    inflate-plain (c ∷ f) v two e = by compressed e
      where
        with_one : Option Bytes → Temps
        with_one o = record { one = o; two = two }

        by :
            (b : Bool)
            → (if b then lib.inflate (c ∷ f) else some (c ∷ f)) ≡ some v
            → ◌≡◌ {A = Ret × Temps}
                (if not b then (done, with_one (some (c ∷ f))) else (elim (lib.inflate (c ∷ f)) [
                  | none ↦ (failed, with_one (some (torn (c ∷ f))))
                  | some i ↦ (done, with_one (some i))
                ]))
                (done, with_one (some v))
        by true h = rw h refl
        by false h = ap (λ o. (done, with_one o)) h

    do_patch-between :
        (d v v' : Bytes) (t : Tmp) (n : ℕ) (temps : Temps)
        → lib.patch v d ≡ some v'
        → get temps (other t) ≡ some v
        → do_patch lib (works torn) compressed d (between t n temps)
          ≡ (done, between (other t) (n + 1) (set (set temps t (some v')) (other t) none))
    unfolding do_patch
    do_patch-between d v v' tmp1 n temps p h = rw (h, p) refl
    do_patch-between d v v' tmp2 n temps p h = rw (h, p) refl

    do_patch-first :
        (d v v' : Bytes) (two : Option Bytes)
        → lib.patch v d ≡ some v'
        → do_patch lib (works torn) compressed d (record {
          temps = record { one = some v; two = two };
          tmp = tmp2;
          best = temp tmp1;
          patches = 0;
        })
          ≡ (done, between tmp1 0 (record { one = none; two = some v' }))
    unfolding do_patch
    do_patch-first d v v' two p = rw p refl

    pass-none :
        (b : Store) (w : Work)
        → b.delta_file ≡ none
        → pass lib (works torn) compressed b w ≡ (done, w)
    unfolding pass
    pass-none b w e = rw e refl

    pass-between :
        (b : Store) (d : Bytes) (t : Tmp) (n : ℕ) (temps : Temps)
        → b.delta_file ≡ some d
        → pass lib (works torn) compressed b (between t n temps)
          ≡ do_patch lib (works torn) compressed d (between t n temps)
    unfolding pass
    pass-between b d t n temps e = let z : ((n + 1) == 0) ≡ false = ground arith in rw (e, z) refl

    pass-first :
        (b : Store) (d f : Bytes) (two : Option Bytes)
        → b.delta_file ≡ some d
        → pass lib (works torn) compressed b (begin f two)
          ≡ then_patch lib
              (works torn)
              compressed
              d
              (ready lib (works torn) compressed f (begin f two))
    unfolding pass
    pass-first b d f two e = rw e refl

    -- The files after a delta.
    abbrev pub Passed : Ret × Work → Bytes → Type 0
    Passed (r, w) v = (r ≡ done) × Holds w v

    delta-Passed :
        (b : Store) (d v v' : Bytes) (w : Work)
        → b.delta_file ≡ some d
        → lib.patch v d ≡ some v'
        → Holds w v
        → Passed (pass lib (works torn) compressed b w) v'
    delta-Passed b d v v' w e p (patched t n temps q h) =
        rw (q, pass-between b d t n temps e, do_patch-between d v v' t n temps p h)
          (refl, patched (other t) (n + 1) _ refl (kept t))
      where
        kept :
            (t : Tmp) → get (set (set temps t (some v')) (other t) none) (other (other t)) ≡ some v'
        kept tmp1 = refl
        kept tmp2 = refl
    delta-Passed b d v v' w e p (first f two q h) =
        rw (q, pass-first b d f two e)
          (unfold ready in
            rw (inflate-plain f v two h) (
              unfold then_patch in
              rw (do_patch-first d v v' two p) (refl, patched tmp1 0 _ refl refl)))

    pass-Passed :
        (b : Store) (v v' : Bytes) (w : Work)
        → back lib compressed b.delta_file (some v) ≡ some v'
        → Holds w v
        → Passed (pass lib (works torn) compressed b w) v'
    unfolding back
    pass-Passed b v v' w e h = by b.delta_file refl e
      where
        by :
            (o : Option Bytes)
            → b.delta_file ≡ o
            → back lib compressed o (some v) ≡ some v'
            → Passed (pass lib (works torn) compressed b w) v'
        by none q e =
            let same : v ≡ v' = ap (λ (o : Option Bytes). elim o [ none ↦ v | some x ↦ x ]) e in
            rw (pass-none b w q) (refl, rw⁻¹ same h)
        by (some d) q e = delta-Passed b d v v' w q e h

    onward :
        (down : List Store) (x : Ret × Work) (v v' : Bytes)
        → Passed x v
        → ((w : Work) → Holds w v → Passed (go_down lib (works torn) compressed down w) v')
        → Passed
            (elim x.0 [
              | done ↦ go_down lib (works torn) compressed down x.1
              | ended ↦ (failed, x.1)
              | failed ↦ (failed, x.1)
              | fault ↦ (fault, x.1)
            ])
            v'
    onward down (done, w) v v' h next = next w h.1
    onward down (ended, w) v v' h next = absurd (ground (arith, h.0))
    onward down (failed, w) v v' h next = absurd (ground (arith, h.0))
    onward down (fault, w) v v' h next = absurd (ground (arith, h.0))

    pub go_down-Passed :
        (down : List Store) (v v' : Bytes) (w : Work)
        → brought_back lib compressed down (some v) ≡ some v'
        → Holds w v
        → Passed (go_down lib (works torn) compressed down w) v'
    unfolding go_down brought_back
    go_down-Passed [] v v' w e h =
        let same : v ≡ v' = ap (λ (o : Option Bytes). elim o [ none ↦ v | some x ↦ x ]) e in
        (refl, rw⁻¹ same h)
    go_down-Passed (b ∷ down) v v' w e h =
        elim (Option-cases (back lib compressed b.delta_file (some v))) [
          | inl q ↦
              let k : brought_back lib compressed down none ≡ some v' = rw q at e in
              let n : ◌≡◌ {A = Option Bytes} none (some v') =
                sym (brought_none lib compressed down) ∙ k in
              absurd (ground (arith, n))
          | inr (v1, q) ↦
              onward down (pass lib (works torn) compressed b w) v1 v' (pass-Passed b v v1 w q h)
                (λ w' k. go_down-Passed down v1 v' w' (rw q at e) k)
        ]
