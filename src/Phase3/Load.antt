-- ===== src/Phase3/Load.antt =====
-- Loading an entry in the loop of src/backup_phase3_server.c, from a well-formed manifest.
use burp.Prelude.{◌≡◌, refl, ap, false, Option, none, some, List, [], ◌∷◌, All}
use burp.Msg.{Ret, done, ended, failed, fault, Stream}
use burp.Sbuf.{Sbuf, init_sbuf}
use burp.Sbuf.Entry.{Entry, to_sbuf, IsEntry}
use burp.Sbuf.Fill.{sbuf_fill}
use burp.Sbuf.Fill.Reads.{fill-messages, fill-end}
use burp.Phase3.{load, bad}
use burp.Phase3.Merge.{all_messages}

-- A file that holds these entries, whole.
abbrev pub stream : List Entry → Stream
stream xs = record { unread = all_messages xs; broken = false }

-- What a file and its `struct sbuf` have still to give: nothing is loaded, or the first entry is,
-- or the file is closed.
pub data Rep (fp : Option Stream) (b : Sbuf) (xs : List Entry) : Type 0 where
  unread : fp ≡ some (stream xs) → b ≡ init_sbuf → Rep fp b xs
  taken :
      (x : Entry) (rest : List Entry)
      → xs ≡ x ∷ rest
      → fp ≡ some (stream rest)
      → b ≡ to_sbuf x
      → Rep fp b xs
  closed : fp ≡ none → b ≡ init_sbuf → xs ≡ [] → Rep fp b xs

abbrev pub loaded_fp : List Entry → Option Stream
loaded_fp [] = none
loaded_fp (x ∷ xs) = some (stream xs)

abbrev pub loaded_b : List Entry → Sbuf
loaded_b [] = init_sbuf
loaded_b (x ∷ xs) = to_sbuf x

abbrev pub Loads : Option Stream → Sbuf → List Entry → Type 0
Loads fp b xs =
    (bad (load fp b).0 ≡ false) × ((load fp b).1 ≡ loaded_fp xs) × ((load fp b).2 ≡ loaded_b xs)

load-ended :
    (st : Stream) {st' : Stream} {b' : Sbuf}
    → sbuf_fill init_sbuf st ≡ (ended, b', st')
    → load (some st) init_sbuf ≡ (ended, none, b')
unfolding load
load-ended st e =
    ap
      (λ p. elim p.0 as (λ r. Ret × Option Stream × Sbuf) [
        | done ↦ (done, some p.2, p.1)
        | ended ↦ (ended, none, p.1)
        | failed ↦ (failed, some p.2, p.1)
        | fault ↦ (fault, some p.2, p.1)
      ])
      e

load-read :
    (st : Stream) {st' : Stream} {b' : Sbuf}
    → sbuf_fill init_sbuf st ≡ (done, b', st')
    → load (some st) init_sbuf ≡ (done, some st', b')
unfolding load
load-read st e =
    ap
      (λ p. elim p.0 as (λ r. Ret × Option Stream × Sbuf) [
        | done ↦ (done, some p.2, p.1)
        | ended ↦ (ended, none, p.1)
        | failed ↦ (failed, some p.2, p.1)
        | fault ↦ (fault, some p.2, p.1)
      ])
      e

Loads-of :
    (fp : Option Stream) (b : Sbuf) (r : Ret) (xs : List Entry)
    → bad r ≡ false
    → load fp b ≡ (r, loaded_fp xs, loaded_b xs)
    → Loads fp b xs
Loads-of fp b r xs h e = rw e (h, refl, refl)

pub load-Rep :
    (fp : Option Stream) (b : Sbuf) (xs : List Entry) → All IsEntry xs → Rep fp b xs → Loads fp b xs
load-Rep fp b [] h (unread e f) =
    rw (e, f) (Loads-of _ _ ended [] refl (load-ended _ (fill-end init_sbuf false)))
load-Rep fp b (x ∷ xs) h (unread e f) =
    rw (e, f)
      (Loads-of _ _ done (x ∷ xs) refl (load-read _ (fill-messages x h.0 (all_messages xs) false)))
load-Rep fp b xs h (taken x rest e f g) = rw (e, f, g) (unfold load in (refl, refl, refl))
load-Rep fp b xs h (closed e f g) = rw (e, f, g) (unfold load in (refl, refl, refl))
