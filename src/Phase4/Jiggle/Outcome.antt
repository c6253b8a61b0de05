-- ===== src/Phase4/Jiggle/Outcome.antt =====
-- What `jiggle` of src/backup_phase4_server.c is to make of the files of a data path, and that it
-- stays the same at every write.
use burp.Prelude.{
  ◌+◌, ◌<◌, ◌≡◌, refl, ◌∙◌, sym, Bool, true, false, not, ◌||◌, Option, none, some, inl, inr,
  Option-cases, Bool-cases, [], ◌∷◌, leb, if◌then◌else◌, if-cases, option-cases, arith,
}
use burp.Prelude.Chars.{Bytes}
use burp.Msg.{Ret, done, failed}
use burp.Phase4.Jiggle.Moves.{Stable, Safe, full-unlinked}
use burp.Phase4.Jiggle.{
  Disk, Librsync, Answers, Job, is_there, Run, put, old_compressed, write_file, set_inf, link_inf,
  nlink, duplicate_file, do_link, inflate_file, inflate_or_link_oldfile,
}

-- There may be two more hard links to the old file, and only one that is not compressed is linked.
abbrev pub Room : Job → Disk → Type 0
Room j d = (d.links + 1 < j.max_hardlinks) × (d.linked ≡ true → old_compressed j ≡ false)

pub few_links : (j : Job) (d : Disk) → Room j d → nlink d < j.max_hardlinks
few_links j d (few, k) = elim (Bool-cases d.linked) [
  | inl l ↦ rw l few
  | inr l ↦ rw l (omega (arith, few))
]

pub Room-Safe : (j : Job) (d : Disk) → Room j d → Safe j d
Room-Safe j d (few, k) l = (k l, few_links j d (few, k))

module _ (lib : Librsync) (j : Job) where
  abbrev pub inflate_old : Bytes → Option Bytes
  inflate_old [] = some []
  inflate_old (c ∷ o) = lib.inflate (c ∷ o)

  abbrev pub inflated : Bytes → Option Bytes
  inflated o = if not (old_compressed j) then some o else inflate_old o

  abbrev pub patch_old : Bytes → Bytes → Option Bytes
  patch_old x o = elim (inflated o) [ none ↦ none | some i ↦ lib.patch i x ]

  -- The content that the finished file is to have: its own, or the old content patched, or that of
  -- the file of phase 2, or the old content.
  unfoldable pub outcome : Disk → Option Bytes
  outcome d = elim d.fin [
    | some f ↦ some f
    | none ↦ elim d.delta [
      | some x ↦ elim d.old [ none ↦ none | some o ↦ patch_old x o ]
      | none ↦ elim d.new [ some n ↦ some n | none ↦ d.old ]
    ]
  ]

module _ (lib : Librsync) (j : Job) (f : Bytes) where
  abbrev pub Settled : Disk → Type 0
  Settled d = outcome lib j d ≡ some f

  pub fin-Settled : (d : Disk) → d.fin ≡ some f → Settled d
  unfolding outcome
  fin-Settled d a = rw a refl

  -- The outcome is settled, and with room as long as the finished file is not there.
  abbrev pub Fine : Disk → Type 0
  Fine d = Settled d × (d.fin ≡ none → Room j d)

  pub fin-Fine : (d : Disk) → d.fin ≡ some f → Fine d
  fin-Fine d a = (fin-Settled d a, λ n. ground (arith, a, n))

  -- The old file and the delta, with which the outcome is settled until the finished file is there.
  abbrev pub Waits : Bytes → Bytes → Disk → Type 0
  Waits x o d = (d.fin ≡ none) × (d.delta ≡ some x) × (d.old ≡ some o) × Room j d

  module _ (x o : Bytes) (gives : patch_old lib j x o ≡ some f) where
    Waits-Fine : (d : Disk) → Waits x o d → Fine d
    unfolding outcome
    Waits-Fine d (a, b, c, k) = (rw (a, b, c) gives, λ n. k)

    pub Waits-Stable : Stable j (Waits x o) Fine
    Waits-Stable = record {
      good = Waits-Fine;
      by_new = λ b d w. w;
      by_inf = λ b d l w. (w.0, w.1, rw l (w.2), w.3);
      by_link = λ b d c w. (w.0, w.1, w.2, (w.3.0, λ l. c));
      by_unlink = λ d w. (w.0, w.1, w.2, (w.3.0, λ l. ground arith));
      by_sig = λ b d w. w;
      by_rev = λ b d w. w;
      by_deletions = λ k d w. w;
    }

  pub fin-outcome : (d : Disk) → is_there d.fin ≡ true → Settled d → d.fin ≡ some f
  unfolding outcome
  fin-outcome d e s = elim (Option-cases d.fin) [
    | inl n ↦ ground (arith, n)
    | inr (c, n) ↦ let settled : outcome lib j d ≡ some c = rw n refl in n ∙ sym settled ∙ s
  ]

  module _ (d : Disk) (unfinished : d.fin ≡ none) where
    pub delta-outcome :
        {x o : Bytes} → d.delta ≡ some x → d.old ≡ some o → Settled d → patch_old lib j x o ≡ some f
    unfolding outcome
    delta-outcome {x} {o} e g s =
        let settled : outcome lib j d ≡ patch_old lib j x o = rw (unfinished, e, g) refl in
        sym settled ∙ s

    pub no_old-delta : {x : Bytes} → d.delta ≡ some x → d.old ≡ none → Settled d → ⊥
    unfolding outcome
    no_old-delta e g s =
        let settled : outcome lib j d ≡ none = rw (unfinished, e, g) refl in
        let chain = sym settled ∙ s in ground (arith, chain)

    pub nothing-outcome : d.delta ≡ none → d.new ≡ none → d.old ≡ none → Settled d → ⊥
    unfolding outcome
    nothing-outcome e g k s =
        let settled : outcome lib j d ≡ none = rw (unfinished, e, g, k) refl in
        let chain = sym settled ∙ s in ground (arith, chain)

    pub new-outcome : {n : Bytes} → d.delta ≡ none → d.new ≡ some n → Settled d → f ≡ n
    unfolding outcome
    new-outcome {n} e g s =
        let settled : outcome lib j d ≡ some n = rw (unfinished, e, g) refl in
        let chain = sym s ∙ settled in ground (arith, chain)

    pub old-outcome :
        {o : Bytes} → d.delta ≡ none → d.new ≡ none → d.old ≡ some o → Settled d → f ≡ o
    unfolding outcome
    old-outcome {o} e g k s =
        let settled : outcome lib j d ≡ some o = rw (unfinished, e, g, k) refl in
        let chain = sym s ∙ settled in ground (arith, chain)

module _ (lib : Librsync) (fs : Answers) (j : Job) where
  -- Where the old file is inflated, it is to its content.
  abbrev pub Inflates : Option Bytes → Ret × Run → Type 0
  Inflates i (v, r) = v ≡ done → r.disk.inf ≡ i

  inflate_file-Inflates :
      (o : Bytes) (r : Run) → Inflates (inflate_old lib j o) (inflate_file lib fs j o r)
  unfolding inflate_file
  inflate_file-Inflates [] r = λ e. refl
  inflate_file-Inflates (c ∷ o) r =
      let P : Option Bytes → Type 0 = λ i. Inflates i (elim i [
        | none ↦ (
          failed,
          put (set_inf (some (fs.torn (c ∷ o))) r.disk) (put (set_inf (some []) r.disk) r),
        )
        | some i ↦ (if fs.closes then done else failed, write_file lib fs j set_inf i r)
      ]) in
      elim (lib.inflate (c ∷ o)) as P [ none ↦ λ e. ground arith | some i ↦ λ e. refl ]

  link-Inflates :
      (there : Bool) (o : Bytes) (r : Run)
      → Safe j r.disk
      → Inflates (some o) (do_link lib fs j set_inf link_inf there r.disk.linked o r)
  unfolding do_link duplicate_file
  link-Inflates there o r k =
      let P = Inflates (some o) in
      if-cases P (leb j.max_hardlinks (nlink r.disk)) _ _
        (λ f.
          if-cases P (not fs.opens) _ _ (λ g e. ground arith)
            (λ g e. let l = full-unlinked j r.disk k f in rw l refl))
        (λ f. if-cases P (there || not fs.links) _ _ (λ g e. ground arith) (λ g e. refl))

  pub inflate_or_link-Inflates :
      (o : Bytes) (r : Run)
      → Safe j r.disk
      → r.disk.old ≡ some o
      → Inflates (inflated lib j o) (inflate_or_link_oldfile lib fs j r)
  unfolding inflate_or_link_oldfile
  inflate_or_link-Inflates o r safe e =
      let P = Inflates (inflated lib j o) in
      option-cases P r.disk.old _ _ (λ g. ground arith)
        (λ c g.
          let same : c ≡ o = ground arith in
          if-cases P (not (old_compressed j)) _ _
            (λ k. rw (k, sym same) (link-Inflates (is_there r.disk.inf) c r safe))
            (λ k.
              if-cases P (not fs.opens) _ _ (λ l m. ground arith)
                (λ l. rw (k, sym same) (inflate_file-Inflates c r))))
