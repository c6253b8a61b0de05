-- ===== src/Restore/Sends.antt =====
-- What `restore_file` of src/restore_server.c sends to the client.
use burp.Prelude.{
  ℕ, ◌+◌, ◌≡◌, refl, ◌∙◌, sym, Bool, false, not, ◌||◌, Option, none, some, List, [], ◌∷◌, ◌==◌,
  if-cases, arith, Option-cases, inl, inr,
}
use burp.Prelude.Chars.{Bytes}
use burp.Cmd.{cmd_enc_file, cmd_enc_metadata, cmd_enc_vss, cmd_efs_file}
use burp.Msg.{Ret, done, ended, failed, fault}
use burp.Phase4.Jiggle.{Librsync}
use burp.Restore.{
  Store, Tmp, tmp1, tmp2, other, Temps, get, Work, Disk, go_up, Sent, inflate_or_link_oldfile,
  ready, then_patch, pass, go_down, send_file, to_send, restore_file,
}
use burp.Restore.Version.{plain, received, version, brought_back, above, brought_none, version-up}
use burp.Restore.Down.{works, begin, between, first, patched, Passed, go_down-Passed}

-- An encrypted file is sent as it is, and what the client makes of it depends on its key.
abbrev encrypted : ℕ → Bool
encrypted cmd =
    cmd == cmd_enc_file || cmd == cmd_enc_metadata || cmd == cmd_enc_vss || cmd == cmd_efs_file

module _ (lib : Librsync) (compressed : Bool) where
  module _ (torn : Bytes → Bytes) where
    Sends : Bytes → Ret × Option Sent × Temps → Type 0
    Sends v (r, sent, temps) = (r ≡ done) × (received lib compressed sent ≡ some v)

    plain-stored : (f : Bytes) → compressed ≡ false → plain lib compressed f ≡ some f
    unfolding plain
    plain-stored [] h = refl
    plain-stored (c ∷ f) h = rw h refl

    unpatched :
        (cmd : ℕ) (f v : Bytes)
        → encrypted cmd ≡ false
        → plain lib compressed f ≡ some v
        → received lib compressed (some (send_file lib (works torn) compressed cmd 0 f)) ≡ some v
    unfolding send_file received
    unpatched cmd f v n e =
        if-cases (λ (x : Sent). received lib compressed (some x) ≡ some v) (encrypted cmd) _ _
          (λ h. absurd (ground (arith, h, n)))
          (λ h.
            if-cases (λ (x : Sent). received lib compressed (some x) ≡ some v) (not compressed) _ _
              (λ k. sym (plain-stored f (ground (arith, k))) ∙ e) (λ k. e))

    patched-Sends :
        (cmd : ℕ) (v : Bytes) (t : Tmp) (k : ℕ) (temps : Temps)
        → get temps (other t) ≡ some v
        → Sends v (to_send lib (works torn) compressed cmd (done, between t k temps))
    unfolding to_send send_file Sends received
    patched-Sends cmd v tmp1 k temps e =
        let z : ((k + 1) == 0) ≡ false = ground arith in rw (e, z) (refl, refl)
    patched-Sends cmd v tmp2 k temps e =
        let z : ((k + 1) == 0) ≡ false = ground arith in rw (e, z) (refl, refl)

    to_send-Sends :
        (cmd : ℕ) (v : Bytes) (x : Ret × Work)
        → encrypted cmd ≡ false
        → Passed lib compressed torn x v
        → Sends v (to_send lib (works torn) compressed cmd x)
    unfolding to_send Sends
    to_send-Sends cmd v (done, w) n h = elim h.1 [
      | first f two q e ↦ rw q (refl, unpatched cmd f v n e)
      | patched t k temps q e ↦ rw q (patched-Sends cmd v t k temps e)
    ]
    to_send-Sends cmd v (ended, w) n h = absurd (ground (arith, h.0))
    to_send-Sends cmd v (failed, w) n h = absurd (ground (arith, h.0))
    to_send-Sends cmd v (fault, w) n h = absurd (ground (arith, h.0))

    found-Sends :
        (cmd : ℕ) (arr : List Store) (two : Option Bytes) (v : Bytes)
        → encrypted cmd ≡ false
        → (o : Option (Bytes × List Store)) → above lib compressed o ≡ some v
        → Sends v (elim o [
          | none ↦ (done, none, record { one = none; two = two })
          | some (f, down) ↦
              to_send lib
                (works torn)
                compressed
                cmd
                (go_down lib (works torn) compressed down (begin f two))
        ])
    unfolding Sends
    found-Sends cmd arr two v n none e = absurd (ground (arith, e))
    found-Sends cmd arr two v n (some (f, down)) e = elim (Option-cases (plain lib compressed f)) [
      | inl q ↦
          let k : brought_back lib compressed down none ≡ some v = rw q at e in
          let m : ◌≡◌ {A = Option Bytes} none (some v) =
            sym (brought_none lib compressed down) ∙ k in
          absurd (ground (arith, m))
      | inr (v0, q) ↦ to_send-Sends cmd v _ n (
          go_down-Passed lib compressed torn down v0 v (begin f two) (rw q at e)
            (first f two refl q))
    ]

  -- Where the file system does what it is asked to, the first temporary file is not there and the
  -- file is not encrypted: if the data of the first backup that has them, taken through the
  -- reverse deltas of those before it, give a version, `restore_file` succeeds and what the client
  -- is sent is that version.
  pub restore_file-version :
      (torn : Bytes → Bytes) (cmd : ℕ) (arr : List Store) (two : Option Bytes) (v : Bytes)
      → encrypted cmd ≡ false
      → version lib compressed arr ≡ some v
      → ((restore_file lib (works torn) compressed cmd arr (record { one = none; two = two })).0
          ≡ done)
        × (received lib compressed
              (restore_file lib
                (works torn)
                compressed
                cmd
                arr
                (record { one = none; two = two })).1
            ≡ some v)
  unfolding restore_file Sends brought_back
  restore_file-version torn cmd arr two v n e =
      found-Sends torn cmd arr two v n (go_up arr []) (sym (version-up lib compressed arr []) ∙ e)

  -- For a file that is not stored compressed and has a reverse delta in the backup next to its
  -- data, a first temporary file that is there makes `restore_file` fail, whatever the file system
  -- answers; nothing is sent, and that file stays.
  pub restore_file-stuck :
      (disk : Disk) (cmd : ℕ) (arr : List Store) (x : Bytes) (two : Option Bytes) (f : Bytes)
      (b : Store) (down : List Store) (d : Bytes)
      → compressed ≡ false
      → go_up arr [] ≡ some (f, b ∷ down)
      → b.delta_file ≡ some d
      → restore_file lib disk compressed cmd arr (record { one = some x; two = two })
        ≡ (failed, none, record { one = some x; two = two })
  unfolding restore_file go_down pass ready inflate_or_link_oldfile then_patch to_send
  restore_file-stuck disk cmd arr x two f b down d n g e = rw (restore_file, g, e, n) refl
