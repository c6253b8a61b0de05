-- ===== src/Phase4/Jiggle/Safe.antt =====
-- The old content of a file, in `jiggle` of src/backup_phase4_server.c.
use burp.Prelude.{◌≡◌, Option, some, All}
use burp.Prelude.Chars.{Bytes}
use burp.Msg.{Ret, done}
use burp.Phase4.Jiggle.Moves.{Kept}
use burp.Phase4.Jiggle.{Disk, Librsync, Answers, Job, Run}

-- The content is in the old file, or is that of the finished file, or comes out of the finished
-- file by the reverse delta.
pub data Held (back : Bytes → Bytes → Option Bytes) (o : Bytes) (d : Disk) : Type 0 where
  in_old : d.old ≡ some o → Held back o d
  in_fin : d.fin ≡ some o → Held back o d
  in_rev : (f r : Bytes) → d.fin ≡ some f → d.rev ≡ some r → back f r ≡ some o → Held back o d

module _ (lib : Librsync) (fs : Answers) (j : Job) (back : Bytes → Bytes → Option Bytes)
    (o : Bytes) where
  abbrev Always : Ret × Run → Type 0
  Always (v, r) = All (Held back o) r.log

  abbrev Olds : Disk → Type 0
  Olds d = d.old ≡ some o

  module _
      (reverses : (n s b : Bytes)
        → lib.signature n ≡ some s
        → lib.delta s o ≡ some b
        → back n b ≡ some o) where
    -- Where the link succeeds, the finished file has the content.
    abbrev Linked : Ret × Run → Type 0
    Linked (v, r) = Kept Olds (Held back o) r × (v ≡ done → r.disk.fin ≡ some o)
