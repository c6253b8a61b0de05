-- ===== src/Sbuf/Manifest/Writes.antt =====
-- `sbuf_to_fp` of src/sbuf.c on the `struct sbuf` of an entry.
use mathlib.Core.List.{append_assoc, append-nil}
use burp.Prelude.{
  ℕ, ◌+◌, ◌-◌, ◌≤◌, ◌<◌, ◌≡◌, refl, Bool, true, false, Option, none, some, [], ◌∷◌, ◌++◌, arith,
  length, length-append,
}
use burp.Prelude.Chars.{Bytes}
use burp.Cmd.{cmd_datapth, cmd_stat, cmd_end_file}
use burp.Msg.{done, Sink, send_msg}
use burp.Msg.RoundTrip.{frame, send_msg-frame}
use burp.Hex.{print_04x}
use burp.Hex.RoundTrip.{length-print_04x}
use burp.Sbuf.{cmd_is_link, filedata}
use burp.Sbuf.Entry.{Entry, size, to_sbuf, Present, IsDatapth, IsEntry, frame?, messages}
use burp.Sbuf.Manifest.{
  Write, ◌>>◌, nothing, write_datapth, write_link, write_end, write_entry, sbuf_to_fp,
}

-- `m` writes `bs`, where the device has room for it.
pub record Writes (m : Write) (bs : Bytes) : Type 0 where
  pub at :
      (k : Sink)
      → length bs ≤ k.room
      → m k ≡ (done, record { written = k.written ++ bs; room = k.room - length bs })

pub Writes-nothing : Writes nothing []
Writes-nothing = record {
  at = λ k h. let e : k.room - 0 ≡ k.room = omega arith in ground (arith, append-nil k.written);
}

pub Writes-then : (m n : Write) (a b : Bytes) → Writes m a → Writes n b → Writes (m >> n) (a ++ b)
Writes-then m n a b hm hn = record {
  at = λ k h.
      let l = length-append a b in
      rw (hm.at k (omega arith)) (
        rw (hn.at (record { written = k.written ++ a; room = k.room - length a }) (omega arith))
          (ground (arith, append_assoc k.written a b)));
}

length-frame :
    (cmd : ℕ) (buf : Bytes) → length buf < 65536 → length (frame cmd buf) ≡ length buf + 6
length-frame cmd buf h = omega (
  arith,
  length-append (print_04x (length buf)) (buf ++ b'\n' ∷ []),
  length-append buf (b'\n' ∷ []),
  length-print_04x (length buf) h,
)

pub Writes-send :
    (cmd : ℕ) (buf : Bytes) (n : ℕ)
    → n ≡ length buf
    → n < 65536
    → Writes (send_msg cmd buf n) (frame cmd buf)
Writes-send cmd buf n e h = record {
  at = λ k r.
      let h' : length buf < 65536 = omega arith in
      let l = length-frame cmd buf h' in rw e (rw l (send_msg-frame cmd buf k h' (omega arith)));
}

Writes-datapth : (d : Option Bytes) → IsDatapth d → Writes (write_datapth d) (frame? cmd_datapth d)
unfolding write_datapth
Writes-datapth none h = Writes-nothing
Writes-datapth (some d) h = rw (h.1) (Writes-send cmd_datapth d (length d) refl h.0)

pub Writes-link :
    (there : Bool) (cmd : ℕ) (l : Option Bytes)
    → Present there l
    → Writes (write_link cmd l (size l)) (frame? cmd l)
unfolding write_link
Writes-link there cmd none h = Writes-nothing
Writes-link true cmd (some l) h = Writes-send cmd l (length l) refl h
Writes-link false cmd (some l) h = absurd h

Writes-end :
    (there : Bool) (l : Option Bytes)
    → Present there l
    → Writes (write_end there l (size l)) (frame? cmd_end_file l)
unfolding write_end
Writes-end true none h = absurd h
Writes-end true (some l) h = Writes-send cmd_end_file l (length l) refl h
Writes-end false none h = Writes-nothing
Writes-end false (some l) h = absurd h

-- With room for it on the device, `sbuf_to_fp` writes a well-formed entry as its messages (data
-- path, stat data, path, link, end of file, each where it is there), behind what was written
-- before, and returns 0.
pub Writes-entry : (e : Entry) → IsEntry e → Writes (sbuf_to_fp (to_sbuf e) true) (messages e)
unfolding sbuf_to_fp write_entry
Writes-entry e h = Writes-then _ _ _ _ (Writes-datapth e.datapth h.datapth_string) (
    Writes-then _ _ _ _ (Writes-send cmd_stat e.statbuf (length e.statbuf) refl h.stat_lt) (
      Writes-then _ _ _ _ (Writes-send e.cmd e.path (length e.path) refl h.path_lt) (
        Writes-then _ _ _ _ (Writes-link (cmd_is_link e.cmd) e.cmd e.linkto h.link_present)
          (Writes-end (filedata e.cmd) e.endfile h.end_present))))

-- With room for it on the device, `sbuf_to_fp` writes a well-formed entry as its messages (data
-- path, stat data, path, link, end of file, each where it is there), behind what was written
-- before, and returns 0.
pub sbuf_to_fp-messages :
    (e : Entry) (k : Sink)
    → IsEntry e
    → length (messages e) ≤ k.room
    → sbuf_to_fp (to_sbuf e) true k
      ≡ (done, record { written = k.written ++ messages e; room = k.room - length (messages e) })
sbuf_to_fp-messages e k h r = (Writes-entry e h).at k r

-- Likewise without the end of a file, in the list of phase 1.
pub Writes-without_end :
    (e : Entry)
    → e.datapth ≡ none
    → length e.statbuf < 65536
    → length e.path < 65536
    → Present (cmd_is_link e.cmd) e.linkto
    → Writes
        (sbuf_to_fp (to_sbuf e) false)
        (frame cmd_stat e.statbuf ++ (frame e.cmd e.path ++ frame? e.cmd e.linkto))
unfolding sbuf_to_fp write_entry write_datapth write_end
Writes-without_end e d s p l = rw d (
    Writes-nothing_then _ (
      Writes-then _ _ _ _ (Writes-send cmd_stat e.statbuf (length e.statbuf) refl s) (
        Writes-then _ _ _ _ (Writes-send e.cmd e.path (length e.path) refl p)
          (Writes-then_nothing _ (Writes-link (cmd_is_link e.cmd) e.cmd e.linkto l)))))
  where
    Writes-nothing_then : (m : Write) {a : Bytes} → Writes m a → Writes (nothing >> m) a
    Writes-nothing_then m h = record { at = λ k r. h.at k r }

    Writes-then_nothing : (m : Write) {a : Bytes} → Writes m a → Writes (m >> nothing) a
    Writes-then_nothing m h = record { at = λ k r. rw (h.at k r) refl }
