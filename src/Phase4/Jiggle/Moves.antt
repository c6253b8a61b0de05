-- ===== src/Phase4/Jiggle/Moves.antt =====
-- The steps below `jiggle` in src/backup_phase4_server.c, for a property of the disk that survives
-- writes to the temporary files, and one that it gives at each state.
use burp.Prelude.{
  ◌≡◌, ◌<◌, refl, Bool, true, false, not, ◌||◌, if◌then◌else◌, Bool-cases, inl, inr, Option, none,
  some, [], ◌∷◌, leb, if-cases, option-cases, arith, All,
}
use burp.Prelude.Chars.{Bytes}
use burp.Msg.{Ret, done, Sink}
use burp.Phase4.Jiggle.{
  Disk, Librsync, Answers, Job, is_there, Run, put, old_compressed, write_file, set_inf, link_inf,
  unlink_inf, nlink, set_sig, set_rev, set_new, duplicate_file, do_link, inflate_file,
  inflate_or_link_oldfile, gen_rev_delta, note_deletion,
}

abbrev pub Survives : (Disk → Type 0) → (Option Bytes → Disk → Disk) → Type 0
Survives W set = (b : Option Bytes) (d : Disk) → W d → W (set b d)

pub record Stable (j : Job) (W : Disk → Type 0) (G : Disk → Type 0) : Type 0 where
  pub good : (d : Disk) → W d → G d
  pub by_new : Survives W set_new
  pub by_inf : (b : Option Bytes) (d : Disk) → d.linked ≡ false → W d → W (set_inf b d)
  pub by_link : (o : Bytes) (d : Disk) → old_compressed j ≡ false → W d → W (link_inf o d)
  pub by_unlink : (d : Disk) → W d → W (unlink_inf d)
  pub by_sig : Survives W set_sig
  pub by_rev : Survives W set_rev
  pub by_deletions : (k : Sink) (d : Disk) → W d → W (record d { deletions = k })

-- The property holds now, and what it gives held at each state so far.
abbrev pub Kept : (Disk → Type 0) → (Disk → Type 0) → Run → Type 0
Kept W G r = W r.disk × All G r.log

abbrev pub Ends : (Disk → Type 0) → (Disk → Type 0) → Ret × Run → Type 0
Ends W G (v, r) = Kept W G r

-- The reverse delta is there.
pub record Reverse (lib : Librsync) (o : Bytes) (n : Bytes) (d : Disk) : Type 0 where
  pub sums : Bytes
  pub delta : Bytes
  pub signed : lib.signature n ≡ some sums
  pub made : lib.delta sums o ≡ some delta
  pub there : d.rev ≡ some delta

-- An inflated file that is a hard link to the old file is not written to: a further link is asked
-- for, which is refused.
abbrev pub Safe : Job → Disk → Type 0
Safe j d = d.linked ≡ true → (old_compressed j ≡ false) × (nlink d < j.max_hardlinks)

pub compressed-unlinked :
    (j : Job) (d : Disk) → Safe j d → old_compressed j ≡ true → d.linked ≡ false
compressed-unlinked j d h c = elim (Bool-cases d.linked) [
  | inl l ↦ let k = h l in absurd (ground (arith, k.0, c))
  | inr l ↦ l
]

pub full-unlinked :
    (j : Job) (d : Disk) → Safe j d → leb j.max_hardlinks (nlink d) ≡ true → d.linked ≡ false
full-unlinked j d h c = elim (Bool-cases d.linked) [
  | inl l ↦ let k = (h l).1 in absurd (ground (arith, k, c))
  | inr l ↦ l
]

module _ (lib : Librsync) (fs : Answers) (j : Job) {W G : Disk → Type 0} (s : Stable j W G) where
  pub put-Kept : (d : Disk) (r : Run) → W d → Kept W G r → Kept W G (put d r)
  put-Kept d r w (e, h) = (w, (s.good d w, h))

  pub write_file-Kept :
      (set : Option Bytes → Disk → Disk) (b : Bytes) (r : Run)
      → ((c : Option Bytes) → W (set c r.disk))
      → Kept W G r
      → Kept W G (write_file lib fs j set b r)
  write_file-Kept set b r at (e, h) =
      (at (some b), (s.good _ (at _), (s.good _ (at _), (s.good _ (at _), h))))

  link-Kept :
      (there : Bool) (o : Bytes) (r : Run)
      → old_compressed j ≡ false
      → Safe j r.disk
      → Kept W G r
      → Ends W G (do_link lib fs j set_inf link_inf there r.disk.linked o r)
  unfolding do_link duplicate_file
  link-Kept there o r c k h =
      if-cases (Ends W G) (leb j.max_hardlinks (nlink r.disk)) _ _
        (λ f.
          if-cases (Ends W G) (not fs.opens) _ _ (λ e. h)
            (λ e.
              write_file-Kept set_inf (if r.disk.linked then [] else o) r
                (λ c. s.by_inf c r.disk (full-unlinked j r.disk k f) h.0) h))
        (λ f.
          if-cases (Ends W G) (there || not fs.links) _ _ (λ g. h)
            (λ g. put-Kept _ r (s.by_link o r.disk c h.0) h))

  inflate_file-Kept :
      (c : Bytes) (r : Run)
      → r.disk.linked ≡ false
      → Kept W G r
      → Ends W G (inflate_file lib fs j c r)
  unfolding inflate_file
  inflate_file-Kept [] r l h = put-Kept _ r (s.by_inf (some []) r.disk l h.0) h
  inflate_file-Kept (x ∷ c) r l h =
      option-cases (Ends W G) (lib.inflate (x ∷ c)) _ _
        (λ f.
          let opened = put-Kept _ r (s.by_inf (some []) r.disk l h.0) h in
          put-Kept _ (put (set_inf (some []) r.disk) r)
            (s.by_inf (some (fs.torn (x ∷ c))) r.disk l h.0) opened)
        (λ i f. write_file-Kept set_inf i r (λ b. s.by_inf b r.disk l h.0) h)

  pub inflate_or_link-Kept :
      (r : Run) → Safe j r.disk → Kept W G r → Ends W G (inflate_or_link_oldfile lib fs j r)
  unfolding inflate_or_link_oldfile
  inflate_or_link-Kept r k h =
      option-cases (Ends W G) r.disk.old _ _ (λ e. h)
        (λ c e.
          if-cases (Ends W G) (not (old_compressed j)) _ _
            (λ f. link-Kept (is_there r.disk.inf) c r (ground arith) k h)
            (λ f.
              if-cases (Ends W G) (not fs.opens) _ _ (λ g. h)
                (λ g. inflate_file-Kept c r (compressed-unlinked j r.disk k (ground arith)) h)))

  pub note_deletion-Kept : (r : Run) → Kept W G r → Ends W G (note_deletion lib fs j r)
  unfolding note_deletion
  note_deletion-Kept r h =
      let unnew = put-Kept _ r (s.by_new none r.disk h.0) h in
      let uninf =
        put-Kept _ (put (set_new none r.disk) r) (s.by_unlink (set_new none r.disk) unnew.0)
          unnew in
      if-cases (Ends W G) (not fs.opens) _ _ (λ f. uninf)
        (λ f.
          put-Kept _ (put (unlink_inf (set_new none r.disk)) (put (set_new none r.disk) r))
            (s.by_deletions _ _ uninf.0) uninf)

  module _ (o n : Bytes) where
    abbrev Backed : Ret × Run → Type 0
    Backed (v, r) = Kept W G r × (v ≡ done → Reverse lib o n r.disk)

    pub gen_rev_delta-Kept :
        (r : Run)
        → Kept W G r
        → Ends W G (gen_rev_delta lib fs j o n r)
          × ((gen_rev_delta lib fs j o n r).0 ≡ done
              → Reverse lib o n (gen_rev_delta lib fs j o n r).1.disk)
    unfolding gen_rev_delta
    gen_rev_delta-Kept r h =
        if-cases Backed (not fs.makes_rev || not fs.opens) _ _ (λ f. (h, (λ g. ground arith)))
          (λ f.
            option-cases Backed (lib.signature n) _ _
              (λ g. (put-Kept _ r (s.by_sig (some []) r.disk h.0) h, (λ g. ground arith)))
              (λ c g.
                let signed_r = write_file lib fs j set_sig c r in
                let signed = write_file-Kept set_sig c r (λ b. s.by_sig b r.disk h.0) h in
                if-cases Backed (not fs.closes) _ _ (λ i. (signed, (λ k. ground arith)))
                  (λ i.
                    option-cases Backed (lib.delta c o) _ _
                      (λ k. (
                        put-Kept _ signed_r (s.by_rev (some []) signed_r.disk signed.0) signed,
                        (λ l. ground arith),
                      ))
                      (λ b k.
                        let backed_r = write_file lib fs j set_rev b signed_r in
                        let backed =
                          write_file-Kept set_rev b signed_r
                            (λ c. s.by_rev c signed_r.disk signed.0) signed in
                        (
                          put-Kept _ backed_r (s.by_sig none backed_r.disk backed.0) backed,
                          (λ l. record { sums = c; delta = b; signed = g; made = k; there = refl }),
                        )))))
