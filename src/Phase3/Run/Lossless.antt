-- ===== src/Phase3/Run/Lossless.antt =====
-- The entries of the manifest of phase 3 (src/backup_phase3_server.c).
use burp.Prelude.{ℕ, ◌≤◌, ◌≡◌, ap, true, false, some, List, length, All}
use burp.Sbuf.Entry.{Entry, IsEntry}
use burp.Phase3.{Outcome, backup_phase3_server}
use burp.Phase3.Merge.{merge, all_messages}
use burp.Phase3.Merge.Lossless.{In, Covered, merge-In, merge-Covered}
use burp.Phase3.Load.{stream}
use burp.Phase3.Run.Whole.{phase3-merge}

-- The manifest holds entries `zs`, with all of `ys`, and each of `xs` or one that compares as the
-- same.
abbrev pub Lossless : List Entry → List Entry → Outcome → Type 0
Lossless xs ys o =
    (zs : List Entry) × (o.manifest ≡ some (all_messages zs))
    × All (λ y. In y zs) ys
    × All (λ x. Covered x zs) xs

-- On two manifests made of well-formed entries, in any order, with room on the disk for the result
-- (no recovery, the close and the rename succeed), the new manifest of phase 3 holds entries among
-- which is every entry of phase 2, and for each unchanged entry itself or one that `sbuf_pathcmp`
-- takes for the same.
pub phase3-Lossless :
    (room : ℕ) (xs ys : List Entry)
    → All IsEntry xs
    → All IsEntry ys
    → length (all_messages (merge xs ys)) ≤ room
    → Lossless xs ys (backup_phase3_server false true true room (stream xs) (stream ys))
phase3-Lossless room xs ys hx hy fits = (
  merge xs ys,
  ap (λ o. o.manifest) (phase3-merge room xs ys hx hy fits),
  merge-In xs ys,
  merge-Covered xs ys,
)
