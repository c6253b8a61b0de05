-- ===== src/Phase4/Jiggle/Recovers.antt =====
-- After power cuts, `jiggle` of src/backup_phase4_server.c still puts the file in place.
use mathlib.Core.Path.{subst}
use burp.Prelude.{
  ℕ, zero, suc, ◌≡◌, ◌<◌, refl, Bool, true, false, not, ◌||◌, none, some, List, [], ◌∷◌, leb,
  get_elem?, if-cases, option-cases, arith, All,
}
use burp.Prelude.Chars.{Bytes}
use burp.Msg.{Ret, done, failed}
use burp.Phase4.Jiggle.{
  Disk, Librsync, Answers, Job, is_there, Run, start, old_compressed, set_inf, link_inf, nlink,
  do_link, inflate_or_link_oldfile, forward, place, jiggle,
}
use burp.Phase4.Jiggle.Outcome.{outcome, Room, Room-Safe, Fine}
use burp.Phase4.Jiggle.Steady.{jiggle-Fine}
use burp.Phase4.Jiggle.Places.{Works, Total, Clear, jiggle-Placed}

-- The disk after any number of runs of `jiggle`, each cut off at one of its states.
pub data Attempts (lib : Librsync) (j : Job) (d : Disk) : Disk → Type 0 where
  untouched : Attempts lib j d d
  cut :
      {d' d'' : Disk}
      → Attempts lib j d d'
      → (fs : Answers) (i : ℕ) → get_elem? (jiggle lib fs j d').1.log i ≡ some d''
      → Attempts lib j d d''

all-at :
    (P : Disk → Type 0) (ds : List Disk) (i : ℕ) {d : Disk}
    → All P ds
    → get_elem? ds i ≡ some d
    → P d
all-at P [] i {d} h e = ground arith
all-at P (x ∷ ds) zero {d} h e = let same : x ≡ d = ground arith in subst P same h.0
all-at P (x ∷ ds) (suc i) {d} h e = all-at P ds i h.1 e

Attempts-Fine :
    (lib : Librsync) (j : Job) (f : Bytes) (d : Disk) {d' : Disk}
    → Fine lib j f d
    → Attempts lib j d d'
    → Fine lib j f d'
Attempts-Fine lib j f d s untouched = s
Attempts-Fine lib j f d s (cut {d'} {d''} a fs i e) =
    all-at (Fine lib j f) _ i (jiggle-Fine lib fs j f d' (Attempts-Fine lib j f d s a)) e

-- However often `jiggle` was cut off at one of its states, and whatever the file system answered
-- then: where the outcome of the files was some content before, there was room for two more hard
-- links to the old file below the limit (only one to an old file that is not compressed may be the
-- inflated file), and no inflated file is left over that would have to be a hard link, a run on a
-- file system that does what it is asked to, with signatures and deltas that can be made, returns
-- 0 and leaves that content in the finished file.
pub jiggle-recovers :
    (lib : Librsync) (fs : Answers) (j : Job) (f : Bytes) (d d' : Disk)
    → Works fs
    → Total lib
    → Room j d
    → outcome lib j d ≡ some f
    → Attempts lib j d d'
    → Clear j d'
    → ((jiggle lib fs j d').0 ≡ done) × ((jiggle lib fs j d').1.disk.fin ≡ some f)
jiggle-recovers lib fs j f d d' w t room s a c =
    let fine = Attempts-Fine lib j f d (s, λ n. room) a in
    jiggle-Placed lib fs j w t f d' c (λ n. Room-Safe j d' (fine.1 n)) fine.0

module _ (lib : Librsync) (fs : Answers) (j : Job) (d : Disk) where
  abbrev Stuck : Ret × Run → Type 0
  Stuck p = p ≡ (failed, start d)

  link-Stuck :
      (o : Bytes) (alias : Bool) {there : Bool}
      → nlink d < j.max_hardlinks
      → there ≡ true
      → Stuck (do_link lib fs j set_inf link_inf there alias o (start d))
  unfolding do_link
  link-Stuck o alias few e =
      if-cases Stuck (leb j.max_hardlinks (nlink d)) _ _ (λ g. absurd (ground arith))
        (λ g. rw e refl)

  inflate_or_link-Stuck :
      old_compressed j ≡ false
      → nlink d < j.max_hardlinks
      → is_there d.inf ≡ true
      → Stuck (inflate_or_link_oldfile lib fs j (start d))
  unfolding inflate_or_link_oldfile
  inflate_or_link-Stuck c few k =
      option-cases Stuck d.old _ _ (λ e. refl) (λ o e. rw c (link-Stuck o d.linked few k))

-- Where the old file is not compressed and `link` is used, an inflated file that is left over
-- makes `jiggle` fail without a write to the disk, whatever the file system answers: every further
-- run fails likewise.
pub jiggle-stuck :
    (lib : Librsync) (fs : Answers) (j : Job) (d : Disk)
    → old_compressed j ≡ false
    → nlink d < j.max_hardlinks
    → d.fin ≡ none
    → is_there d.delta ≡ true
    → is_there d.inf ≡ true
    → jiggle lib fs j d ≡ (failed, start d)
unfolding jiggle place forward
jiggle-stuck lib fs j d c few e g k =
    let P : Ret × Run → Type 0 = Stuck lib fs j d in
    let s = inflate_or_link-Stuck lib fs j d c few k in
    if-cases P (is_there d.fin) _ _ (λ h. ground arith)
      (λ h.
        if-cases P (not fs.makes_fin || not fs.makes_new) _ _ (λ m. refl)
          (λ m.
            option-cases P d.delta _ _ (λ n. ground arith)
              (λ x n. option-cases P d.old _ _ (λ q. refl) (λ o q. rw s refl))))
