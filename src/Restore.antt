-- ===== src/Restore.antt =====
-- `restore_file` of src/restore_server.c and the functions below it: a file is looked for in the
-- backup to be restored and those behind it, and the reverse deltas bring it back, through two
-- temporary files. What librsync and zlib make of the contents is a parameter.
pub mod Version
pub mod Down
pub mod Sends
use burp.Prelude.{
  ℕ, zero, suc, ◌+◌, Bool, true, false, not, ◌&&◌, ◌||◌, Option, none, some, List, [], ◌∷◌, ◌==◌,
  if◌then◌else◌,
}
use burp.Prelude.Chars.{Bytes, c_str}
use burp.Cmd.{cmd_enc_file, cmd_enc_metadata, cmd_enc_vss, cmd_efs_file}
use burp.Msg.{Ret, done, ended, failed, fault}
use burp.Phase4.Jiggle.{Librsync}

-- What one backup has under the path of the file: a regular file among its data, and one among its
-- deltas.
pub record Store : Type 0 where
  pub data_file : Option Bytes
  pub delta_file : Option Bytes

-- The two temporary files, which other files that are restored leave behind.
pub data Tmp : Type 0 where
  tmp1 tmp2 : Tmp

abbrev pub other : Tmp → Tmp
other tmp1 = tmp2
other tmp2 = tmp1

pub record Temps : Type 0 where
  pub one : Option Bytes
  pub two : Option Bytes

abbrev pub get : Temps → Tmp → Option Bytes
get t tmp1 = t.one
get t tmp2 = t.two

abbrev pub set : Temps → Tmp → Option Bytes → Temps
set t tmp1 c = record t { one = c }
set t tmp2 c = record t { two = c }

-- `best` is the file of the data, or a temporary file.
pub data Best : Type 0 where
  stored : Bytes → Best
  temp : Tmp → Best

pub record Work : Type 0 where
  pub temps : Temps
  pub tmp : Tmp
  pub best : Best
  pub patches : ℕ

-- What the file system answers; `torn` is what is written before an error.
pub record Disk : Type 0 where
  pub opens : Bool
  pub closes : Bool
  pub links : Bool
  pub torn : Bytes → Bytes

-- "Go up the array until we find the file in the data directory." What was passed is left, the
-- nearest first.
unfoldable pub go_up : List Store → List Store → Option (Bytes × List Store)
go_up [] passed = none
go_up (b ∷ arr) passed =
    let further = go_up arr (b ∷ passed) in
    elim b.data_file [ some f ↦ some (f, passed) | none ↦ further ]

-- `best` as it is read.
abbrev pub content : Work → Option Bytes
content w = elim w.best [ stored c ↦ some c | temp t ↦ get w.temps t ]

-- What is sent: a file as it is, or compressed on the way.
pub data Sent : Type 0 where
  as_it_is : Bytes → Sent
  zipped : Bytes → Sent

-- `compressed` is the result of `dpth_is_compressed`.
module _ (lib : Librsync) (disk : Disk) (compressed : Bool) where
  -- An empty file is not inflated. A hard link does not replace a file.
  pub inflate_or_link_oldfile : Bytes → Tmp → Temps → Ret × Temps
  inflate_or_link_oldfile c t temps =
      if not compressed
      then (elim (get temps t) [
        | some there ↦ (failed, temps)
        | none ↦ if disk.links then (done, set temps t (some c)) else (failed, temps)
      ])
      else if not disk.opens
      then (failed, temps)
      else (elim c [
        | [] ↦ (done, set temps t (some []))
        | x ∷ s ↦ elim (lib.inflate (x ∷ s)) [
          | none ↦ (failed, set temps t (some (disk.torn (x ∷ s))))
          | some i ↦ (if disk.closes then done else failed, set temps t (some i))
        ]
      ])

  -- "Need to gunzip the first one."
  pub ready : Bytes → Work → Ret × Work
  unfolding inflate_or_link_oldfile
  ready c w =
      let (r, temps) = inflate_or_link_oldfile c w.tmp w.temps in
      (r, record w { temps = temps; best = temp w.tmp; tmp = other w.tmp })

  -- From `best` to `tmp`; the two change places, and the older one is removed.
  pub do_patch : Bytes → Work → Ret × Work
  do_patch d w = elim (content w) [
    | none ↦ (failed, w)
    | some c ↦ if not disk.opens then (failed, w) else elim (lib.patch c d) [
      | none ↦ (failed, record w { temps = set w.temps w.tmp (some (disk.torn d)) })
      | some n ↦
          let written = set w.temps w.tmp (some n) in
          if not disk.closes then (failed, record w { temps = written }) else (
            done,
            record w {
              temps = set written (other w.tmp) none;
              best = temp w.tmp;
              tmp = other w.tmp;
              patches = w.patches + 1;
            },
          )
    ]
  ]

  pub then_patch : Bytes → Ret × Work → Ret × Work
  unfolding do_patch
  then_patch d (done, w) = do_patch d w
  then_patch d (r, w) = (r, w)

  -- A delta, if the backup has one.
  pub pass : Store → Work → Ret × Work
  unfolding ready then_patch
  pass b w = elim b.delta_file [
    | none ↦ (done, w)
    | some d ↦
        if not (w.patches == 0)
        then do_patch d w
        else elim (content w) [ none ↦ (failed, w) | some c ↦ then_patch d (ready c w) ]
  ]

  -- "Now go down the array, applying any deltas."
  pub go_down : List Store → Work → Ret × Work
  unfolding pass
  go_down [] w = (done, w)
  go_down (b ∷ down) w =
      let (r, w') = pass b w in
      elim r [
        | done ↦ go_down down w'
        | ended ↦ (failed, w')
        | failed ↦ (failed, w')
        | fault ↦ (fault, w')
      ]

  -- "If it was encrypted, send it as it is." A file that is stored compressed goes as it is, too.
  pub send_file : ℕ → ℕ → Bytes → Sent
  send_file cmd patches c =
      if not (patches == 0)
      then zipped c
      else if cmd == cmd_enc_file
          || cmd == cmd_enc_metadata
          || cmd == cmd_enc_vss
          || cmd == cmd_efs_file
      then as_it_is c
      else if not compressed
      then zipped c
      else as_it_is c

  pub to_send : ℕ → Ret × Work → Ret × Option Sent × Temps
  unfolding send_file
  to_send cmd (done, w) = elim (content w) [
    | none ↦ (failed, none, w.temps)
    | some c ↦ (done, some (send_file cmd w.patches c), w.temps)
  ]
  to_send cmd (r, w) = (failed, none, w.temps)

  -- `arr` from the backup to be restored on. A file that is not found is no error. Sending itself,
  -- the verification and the counters are left out.
  unfoldable pub restore_file : ℕ → List Store → Temps → Ret × Option Sent × Temps
  unfolding go_down to_send
  restore_file cmd arr temps = elim (go_up arr []) [
    | none ↦ (done, none, temps)
    | some (f, down) ↦
        to_send cmd
          (go_down down (record { temps = temps; tmp = tmp1; best = stored f; patches = 0 }))
  ]
