-- ===== src/Phase4/Jiggle.antt =====
-- `jiggle` of src/backup_phase4_server.c and the functions below it, for one data path: each write
-- to the disk is a state of its own, so that a power cut can come between any two.
pub mod Moves
pub mod Outcome
pub mod Steady
pub mod Places
pub mod Recovers
pub mod Safe
use burp.Prelude.{
  ℕ, ◌+◌, Bool, true, false, not, ◌&&◌, ◌||◌, Option, none, some, List, [], ◌∷◌, ltb, leb,
  if◌then◌else◌,
}
use burp.Prelude.Chars.{Bytes}
use burp.Dpth.{dpth_is_compressed}
use burp.Msg.{Ret, done, failed, is_done, Sink}
use burp.Prepend.{prepend_s}
use burp.Sbuf.{Sbuf}
use burp.Sbuf.Manifest.{sbuf_to_fp}

-- The regular files at the paths that belong to the data path: the old file, the one of phase 2,
-- the finished one, the forward delta, the inflated old file, the signature, the reverse delta; and
-- the list of deletions. `linked` says that the inflated file is a hard link to the old file, so that
-- what is written to it is written to the old file too; `links` counts the other hard links to the
-- old file. A finished file may be such a link as well, but it is never written to again.
pub record Disk : Type 0 where
  pub old : Option Bytes
  pub new : Option Bytes
  pub fin : Option Bytes
  pub delta : Option Bytes
  pub inf : Option Bytes
  pub sig : Option Bytes
  pub rev : Option Bytes
  pub deletions : Sink
  pub linked : Bool
  pub links : ℕ

-- What librsync and zlib make of the contents of files; none is an error.
pub record Librsync : Type 0 where
  pub inflate : Bytes → Option Bytes
  pub patch : Bytes → Bytes → Option Bytes
  pub signature : Bytes → Option Bytes
  pub delta : Bytes → Bytes → Option Bytes

-- What the file system answers; `opens_patch` and `closes_patch` are about the three files of
-- `do_patch`. `torn` is the part of a file that is on the disk while it is
-- written.
pub record Answers : Type 0 where
  pub makes_fin : Bool
  pub makes_new : Bool
  pub makes_rev : Bool
  pub opens : Bool
  pub closes : Bool
  pub links : Bool
  pub renames : Bool
  pub flushes : Bool
  pub opens_patch : Bool
  pub closes_patch : Bool
  pub torn : Bytes → Bytes

pub record Job : Type 0 where
  pub currentdata : Bytes
  pub datapth : Bytes
  pub compression : ℕ
  pub hardlinked : Bool
  pub max_hardlinks : ℕ
  pub sb : Sbuf

abbrev pub is_there : Option Bytes → Bool
is_there none = false
is_there (some b) = true

-- The states of the disk so far, the last one first.
pub record Run : Type 0 where
  pub disk : Disk
  pub log : List Disk

abbrev pub start : Disk → Run
start d = record { disk = d; log = d ∷ [] }

-- One write, or one removal or rename.
abbrev pub put : Disk → Run → Run
put d r = record { disk = d; log = d ∷ r.log }

abbrev pub old_compressed : Job → Bool
old_compressed j = ltb 0 (dpth_is_compressed j.compression (prepend_s j.currentdata j.datapth))

abbrev pub set_new : Option Bytes → Disk → Disk
set_new b d = record d { new = b }

abbrev pub set_fin : Option Bytes → Disk → Disk
set_fin b d = record d { fin = b }

-- A write to the inflated file, which goes through a hard link.
abbrev pub set_inf : Option Bytes → Disk → Disk
set_inf b d = record d { inf = b; old = if d.linked then b else d.old }

abbrev pub link_inf : Bytes → Disk → Disk
link_inf o d = record d { inf = some o; linked = true }

abbrev pub unlink_inf : Disk → Disk
unlink_inf d = record d { inf = none; linked = false }

abbrev pub link_fin : Bytes → Disk → Disk
link_fin o d = record d { fin = some o; links = d.links + 1 }

abbrev pub unlink_old : Disk → Disk
unlink_old d = record d { old = none; linked = false; links = 0 }

-- `st_nlink` of the old file.
abbrev pub nlink : Disk → ℕ
nlink d = d.links + (if d.linked then 1 else 0)

abbrev pub set_sig : Option Bytes → Disk → Disk
set_sig b d = record d { sig = b }

abbrev pub set_rev : Option Bytes → Disk → Disk
set_rev b d = record d { rev = b }

module _ (lib : Librsync) (fs : Answers) (j : Job) where
  -- A file is opened, written, and complete; `set` puts its content in place.
  abbrev pub write_file : (Option Bytes → Disk → Disk) → Bytes → Run → Run
  write_file set content r =
      let opened = set (some []) r.disk in
      let part = set (some (fs.torn content)) r.disk in
      let whole = set (some content) r.disk in
      record { disk = whole; log = whole ∷ part ∷ opened ∷ r.log }

  -- `alias` says that the new path is a hard link to the old file: it is cut off to nothing when it is
  -- opened, before it is read.
  unfoldable pub duplicate_file : (Option Bytes → Disk → Disk) → Bool → Bytes → Run → Ret × Run
  duplicate_file set alias content r =
      if not fs.opens then (failed, r) else (done, write_file set (if alias then [] else content) r)

  -- `there` says whether there is a file at the new path: `link` does not replace it.
  unfoldable pub do_link :
      (Option Bytes → Disk → Disk) → (Bytes → Disk → Disk) → Bool → Bool → Bytes → Run → Ret × Run
  unfolding duplicate_file
  do_link set link there alias content r =
      if leb j.max_hardlinks (nlink r.disk)
      then duplicate_file set alias content r
      else if there || not fs.links
      then (failed, r)
      else (done, put (link content r.disk) r)

  -- An empty file is not inflated. After an error of zlib a part has been written.
  unfoldable pub inflate_file : Bytes → Run → Ret × Run
  inflate_file [] r = (if fs.closes then done else failed, put (set_inf (some []) r.disk) r)
  inflate_file (c ∷ o) r =
      let opened = put (set_inf (some []) r.disk) r in
      elim (lib.inflate (c ∷ o)) [
        | none ↦ (failed, put (set_inf (some (fs.torn (c ∷ o))) r.disk) opened)
        | some i ↦ (if fs.closes then done else failed, write_file set_inf i r)
      ]

  unfoldable pub inflate_or_link_oldfile : Run → Ret × Run
  unfolding do_link inflate_file
  inflate_or_link_oldfile r = elim r.disk.old [
    | none ↦ (failed, r)
    | some o ↦
        if not (old_compressed j)
        then do_link set_inf link_inf (is_there r.disk.inf) r.disk.linked o r
        else if not fs.opens
        then (failed, r)
        else inflate_file o r
  ]

  -- The signature is of the file of phase 2, since it is not renamed yet.
  unfoldable pub gen_rev_delta : Bytes → Bytes → Run → Ret × Run
  gen_rev_delta o n r =
      if not fs.makes_rev || not fs.opens then (failed, r) else elim (lib.signature n) [
        | none ↦ (failed, put (record r.disk { sig = some [] }) r)
        | some s ↦
            let signed = write_file set_sig s r in
            if not fs.closes then (failed, signed) else elim (lib.delta s o) [
              | none ↦ (failed, put (record signed.disk { rev = some [] }) signed)
              | some b ↦
                  let backed = write_file set_rev b signed in
                  (done, put (record backed.disk { sig = none }) backed)
            ]
      ]

  -- "Use the fresh new file", and remove the forward delta and the old file.
  unfoldable pub put_patched : Bytes → Run → Ret × Run
  put_patched n r =
      let moved = put (record r.disk { new = none; fin = some n }) r in
      let undelta = put (record moved.disk { delta = none }) moved in
      if not fs.renames
      then (failed, r)
      else if j.hardlinked
      then (done, undelta)
      else (done, put (unlink_old undelta.disk) undelta)

  -- The patch failed: what was written is removed, and the entry goes into the list of deletions.
  pub note_deletion : Run → Ret × Run
  note_deletion r =
      let unnew = put (record r.disk { new = none }) r in
      let uninf = put (unlink_inf unnew.disk) unnew in
      let (w, k) = sbuf_to_fp j.sb true uninf.disk.deletions in
      if not fs.opens then (failed, uninf) else (
        if is_done w && fs.flushes then done else failed,
        put (record uninf.disk { deletions = k }) uninf,
      )

  -- The new file is there whole; the inflated one goes.
  unfoldable pub patched : Bytes → Bytes → Run → Ret × Run
  unfolding gen_rev_delta put_patched
  patched o n r =
      let r1 = put (unlink_inf r.disk) r in
      let (v, r2) = gen_rev_delta o n r1 in
      if j.hardlinked
      then put_patched n r1
      else if not (is_done v)
      then (failed, r2)
      else put_patched n r2

  -- "Got a forward patch to do."
  unfoldable pub forward : Bytes → Bytes → Disk → Ret × Run
  unfolding inflate_or_link_oldfile patched note_deletion
  forward x o d =
      let (v, r) = inflate_or_link_oldfile (start d) in
      if not (is_done v) then (failed, r) else elim r.disk.inf [
        | none ↦ note_deletion r
        | some i ↦ if not fs.opens_patch then note_deletion r else elim (lib.patch i x) [
          | none ↦ note_deletion (put (record r.disk { new = some (fs.torn x) }) r)
          | some n ↦
              let written = write_file set_new n r in
              if not fs.closes_patch then note_deletion written else patched o n written
        ]
      ]

  -- "Use the old unchanged file", by a hard link.
  pub use_old : Bytes → Disk → Ret × Run
  unfolding do_link
  use_old o d =
      let (v, r) = do_link set_fin link_fin (is_there d.fin) false o (start d) in
      if not (is_done v)
      then (failed, r)
      else if j.hardlinked
      then (done, r)
      else (done, put (unlink_old r.disk) r)

  pub use_new : Bytes → Disk → Ret × Run
  use_new n d =
      if not fs.renames
      then (failed, start d)
      else (done, put (record d { new = none; fin = some n }) (start d))

  -- The delta is looked for before the new file, which the patching writes.
  unfoldable pub place : Disk → Ret × Run
  unfolding forward use_old use_new
  place d = elim d.delta [
    | some x ↦ elim d.old [ none ↦ (failed, start d) | some o ↦ forward x o d ]
    | none ↦ elim d.new [
      | some n ↦ use_new n d
      | none ↦ elim d.old [ some o ↦ use_old o d | none ↦ (failed, start d) ]
    ]
  ]

  -- Where the finished file is there, it "looks like an interrupted jiggle".
  unfoldable pub jiggle : Disk → Ret × Run
  unfolding place
  jiggle d =
      if is_there d.fin
      then (done, if is_there d.delta then put (record d { delta = none }) (start d) else start d)
      else if not fs.makes_fin || not fs.makes_new
      then (failed, start d)
      else place d
