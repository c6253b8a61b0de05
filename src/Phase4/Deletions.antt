-- ===== src/Phase4/Deletions.antt =====
-- `maybe_delete_files_from_manifest` of src/backup_phase4_server.c: the entries of the list of
-- deletions are taken out of the manifest.
pub mod Subtract
pub mod Run
use burp.Prelude.{
  ℕ, zero, suc, ◌+◌, Bool, true, false, not, ◌&&◌, ◌||◌, Option, none, some, List, [], ◌∷◌,
  if◌then◌else◌, length,
}
use burp.Prelude.Chars.{Bytes}
use burp.Msg.{Ret, done, ended, failed, is_done, Stream, Sink}
use burp.Path.{less, same, more}
use burp.Sbuf.{Sbuf, init_sbuf, free_sbuf}
use burp.Sbuf.Manifest.{sbuf_to_fp}
use burp.Sbuf.Compare.{sbuf_pathcmp}
use burp.Phase3.{has, is_open, load, bad}

-- The variables of the loop; a closed file is none.
pub record Deleting : Type 0 where
  pub dfp : Option Stream
  pub omzp : Option Stream
  pub db : Sbuf
  pub mb : Sbuf
  pub nmzp : Sink

-- One round of the loop goes on, or breaks off with an error.
pub data Round : Type 0 where
  go_on : Deleting → Round
  give_up : Deleting → Round

-- Write the entry of the manifest, and free it.
pub write_mb : Deleting → Round
write_mb s =
    let (r, k) = sbuf_to_fp s.mb true s.nmzp in
    if not (is_done r)
    then give_up (record s { nmzp = k })
    else go_on (record s { nmzp = k; mb = free_sbuf s.mb })

pub delete_step : Deleting → Round
delete_step s =
    if has s.mb.path && not (has s.db.path)
    then write_mb s
    else if not (has s.mb.path) && has s.db.path
    then go_on (record s { db = free_sbuf s.db })
    else if not (has s.mb.path) && not (has s.db.path)
    then go_on s
    else elim (sbuf_pathcmp s.mb s.db) [
      | same ↦ go_on (record s { mb = free_sbuf s.mb; db = free_sbuf s.db })
      | less ↦ write_mb s
      | more ↦ go_on (record s { db = free_sbuf s.db })
    ]

pub delete_round : Deleting → Round
delete_round s =
    let (r1, dfp, db) = load s.dfp s.db in
    let s1 = record s { dfp = dfp; db = db } in
    let (r2, omzp, mb) = load s1.omzp s1.mb in
    let s2 = record s1 { omzp = omzp; mb = mb } in
    if bad r1 then give_up s1 else if bad r2 then give_up s2 else delete_step s2

-- `while(omzp || dfp)`. Each round takes bytes from a file, frees an entry that was taken before,
-- or closes a file, so a round for each byte and three more are enough.
pub delete_loop : ℕ → Deleting → Ret × Deleting
delete_loop zero s = (failed, s)
delete_loop (suc f) s =
    let again : Ret × Deleting = elim (delete_round s) [
      | give_up s' ↦ (failed, s')
      | go_on s' ↦ delete_loop f s'
    ] in
    if is_open s.omzp || is_open s.dfp then again else (done, s)

-- What is left on the disk: the new content of the manifest, if it was put in place; and whether
-- the list of deletions was removed.
pub record Cleaned : Type 0 where
  pub ret : Ret
  pub manifest : Option Bytes
  pub removed : Bool

-- `closes` and `renames` say whether closing and renaming the temporary manifest succeed. The list
-- of deletions is removed before the rename.
delete_finish : Bool → Bool → Ret × Deleting → Cleaned
delete_finish closes renames (r, s) =
    if not (is_done r) || not closes
    then record { ret = failed; manifest = none; removed = false }
    else if not renames
    then record { ret = failed; manifest = none; removed = true }
    else record { ret = done; manifest = some s.nmzp.written; removed = true }

-- The list of deletions is none where it is not there. The files can be opened; the temporary
-- manifest is empty, on a device with `room` bytes.
unfoldable pub maybe_delete_files_from_manifest : Bool → Bool → ℕ → Option Stream → Stream → Cleaned
unfolding delete_finish
maybe_delete_files_from_manifest closes renames room none manifest = record {
  ret = done;
  manifest = none;
  removed = false;
}
maybe_delete_files_from_manifest closes renames room (some dels) manifest =
    delete_finish closes renames (
      delete_loop (length dels.unread + length manifest.unread + 3) (record {
        dfp = some dels;
        omzp = some manifest;
        db = init_sbuf;
        mb = init_sbuf;
        nmzp = record { written = []; room = room };
      }))
