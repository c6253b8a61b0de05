-- ===== src/Phase3.antt =====
-- src/backup_phase3_server.c: the list of unchanged entries and the list of phase 2 are merged
-- into the new manifest.
pub mod Merge
pub mod Load
pub mod Run
use burp.Prelude.{
  ℕ, zero, suc, ◌+◌, Bool, true, false, not, ◌&&◌, ◌||◌, Option, none, some, List, [], ◌∷◌,
  if◌then◌else◌, length,
}
use burp.Prelude.Chars.{Bytes}
use burp.Msg.{Ret, done, ended, failed, fault, is_done, Stream, Sink}
use burp.Path.{Cmp, less, same, more}
use burp.Sbuf.{Sbuf, init_sbuf, free_sbuf}
use burp.Sbuf.Fill.{sbuf_fill}
use burp.Sbuf.Manifest.{sbuf_to_fp}
use burp.Sbuf.Compare.{sbuf_pathcmp}

-- The variables of the loop; a closed file is none.
pub record Merging : Type 0 where
  pub ucfp : Option Stream
  pub p2fp : Option Stream
  pub ucb : Sbuf
  pub p2b : Sbuf
  pub mp : Sink

-- One round of the loop goes on, or breaks off with this `ret`.
pub data Next : Type 0 where
  continue : Merging → Next
  stop : Ret → Merging → Next

abbrev pub has : Option Bytes → Bool
has none = false
has (some p) = true

abbrev pub is_open : Option Stream → Bool
is_open none = false
is_open (some st) = true

-- `if(fp && !b.path && (ars=sbuf_fill(fp, NULL, &b, cntr)))` and its block, up to the tests of
-- `ars`: the file is closed at its end.
unfoldable pub load : Option Stream → Sbuf → Ret × Option Stream × Sbuf
load none b = (done, none, b)
load (some st) b =
    let (r, b', st') = sbuf_fill b st in
    if has b.path then (done, some st, b) else elim r [
      | done ↦ (done, some st', b')
      | ended ↦ (ended, none, b')
      | failed ↦ (failed, some st', b')
      | fault ↦ (fault, some st', b')
    ]

abbrev pub bad : Ret → Bool
bad done = false
bad ended = false
bad failed = true
bad fault = true

abbrev pub is_ended : Ret → Bool
is_ended ended = true
is_ended _ = false

-- Write the unchanged entry, and free it.
pub write_uc : Merging → Next
write_uc s =
    let (r, k) = sbuf_to_fp s.ucb true s.mp in
    if not (is_done r)
    then stop failed (record s { mp = k })
    else continue (record s { mp = k; ucb = free_sbuf s.ucb })

pub write_p2 : Merging → Next
write_p2 s =
    let (r, k) = sbuf_to_fp s.p2b true s.mp in
    if not (is_done r)
    then stop failed (record s { mp = k })
    else continue (record s { mp = k; p2b = free_sbuf s.p2b })

-- They were the same: write one and free both.
pub write_same : Merging → Next
write_same s =
    let (r, k) = sbuf_to_fp s.p2b true s.mp in
    if not (is_done r)
    then stop failed (record s { mp = k })
    else continue (record s { mp = k; p2b = free_sbuf s.p2b; ucb = free_sbuf s.ucb })

pub merge_step : Merging → Next
merge_step s =
    if has s.ucb.path && not (has s.p2b.path)
    then write_uc s
    else if not (has s.ucb.path) && has s.p2b.path
    then write_p2 s
    else if not (has s.ucb.path) && not (has s.p2b.path)
    then continue s
    else elim (sbuf_pathcmp s.ucb s.p2b) [
      | same ↦ write_same s
      | less ↦ write_uc s
      | more ↦ write_p2 s
    ]

-- One round; `recovery` stops at the end of the list of phase 2.
pub round : Bool → Merging → Next
round recovery s =
    let (r1, uc, ucb) = load s.ucfp s.ucb in
    let s1 = record s { ucfp = uc; ucb = ucb } in
    let (r2, p2, p2b) = load s1.p2fp s1.p2b in
    let s2 = record s1 { p2fp = p2; p2b = p2b } in
    if bad r1
    then stop failed s1
    else if bad r2
    then stop failed s2
    else if is_ended r2 && recovery
    then stop done s2
    else merge_step s2

-- `while(ucfp || p2fp)`. Each round takes bytes from a file, frees an entry that was taken before,
-- or closes a file, so a round for each byte and three more are enough.
pub loop : ℕ → Bool → Merging → Ret × Merging
loop zero recovery s = (failed, s)
loop (suc f) recovery s =
    let again : Ret × Merging = elim (round recovery s) [
      | stop r s' ↦ (r, s')
      | continue s' ↦ loop f recovery s'
    ] in
    if is_open s.ucfp || is_open s.p2fp then again else (done, s)

-- What is left on the disk: the new manifest, if it was put in place; and whether the two lists
-- were removed.
pub record Outcome : Type 0 where
  pub ret : Ret
  pub manifest : Option Bytes
  pub removed : Bool

-- `closes` and `renames` say whether closing and renaming the temporary manifest succeed.
finish : Bool → Bool → Ret × Merging → Outcome
finish closes renames (r, s) =
    if not (is_done r) || not closes
    then record { ret = failed; manifest = none; removed = false }
    else if not renames
    then record { ret = failed; manifest = none; removed = false }
    else record { ret = done; manifest = some s.mp.written; removed = true }

-- The files are open; the new manifest is empty, on a device with `room` bytes.
unfoldable pub backup_phase3_server : Bool → Bool → Bool → ℕ → Stream → Stream → Outcome
unfolding finish
backup_phase3_server recovery closes renames room uc p2 = finish closes renames (
    loop (length uc.unread + length p2.unread + 3) recovery (record {
      ucfp = some uc;
      p2fp = some p2;
      ucb = init_sbuf;
      p2b = init_sbuf;
      mp = record { written = []; room = room };
    }))
