-- ===== src/Phase1/Listed.antt =====
-- The list of phase 1, read again for a resumed backup (src/backup_phase1_server.c).
use mathlib.Core.List.{append-nil}
use burp.Prelude.{
  ℕ, zero, suc, ◌+◌, ◌<◌, ◌≡◌, refl, ap, ◌∙◌, Bool, true, Option, List, [], ◌∷◌, ◌++◌, arith,
  length, length-append, All,
}
use burp.Prelude.Chars.{Bytes, codes, c_str, str_eq}
use burp.Cmd.{cmd_stat, cmd_gen}
use burp.Counter.{Cntr}
use burp.Msg.{Ret, done, ended, failed, fault, Stream}
use burp.Msg.RoundTrip.{frame}
use burp.Sbuf.{Sbuf, init_sbuf, ends_phase}
use burp.Sbuf.Entry.{Entry, to_sbuf, frame?}
use burp.Sbuf.Fill.{sbuf_fill_phase1}
use burp.Sbuf.Fill.Reads.{fill-ends_phase}
use burp.Phase1.{count_entry, count_loop, read_phase1}
use burp.Phase1.Fill.{IsScanned, scanned, fill_phase1-scanned}

-- The list of phase 1, with its end.
abbrev pub list_end : Bytes
list_end = frame cmd_gen (codes "phase1end")

abbrev pub scan_list : List Entry → Bytes
scan_list [] = list_end
scan_list (e ∷ es) = scanned e ++ scan_list es

-- What is counted of them.
abbrev pub count_list : List Entry → Option Cntr → Option Cntr
count_list [] c = c
count_list (e ∷ es) c = count_list es (count_entry (to_sbuf e) c)

phase1end-ends : ends_phase cmd_gen (codes "phase1end") ≡ true
unfolding ends_phase str_eq c_str
phase1end-ends = refl

-- `read_phase1`
pub fill-list_end :
    (b : Bool) (sb : Sbuf)
    → sbuf_fill_phase1 sb (record { unread = list_end; broken = b })
      ≡ (ended, sb, record { unread = []; broken = b })
unfolding sbuf_fill_phase1
fill-list_end b sb =
    let e =
      fill-ends_phase true cmd_gen sb (codes "phase1end") [] b (omega arith) (omega arith)
        phase1end-ends refl refl in
    rw append-nil at e

-- A round, by what `sbuf_fill_phase1` gives.
read_round :
    (f : ℕ) (st : Stream) (c : Option Cntr) {p : Ret × Sbuf × Stream}
    → sbuf_fill_phase1 init_sbuf st ≡ p
    → count_loop (suc f) st c ≡ (elim p.0 [
      | done ↦ count_loop f p.2 (count_entry p.1 c)
      | ended ↦ (done, p.2, c)
      | failed ↦ (failed, p.2, c)
      | fault ↦ (fault, p.2, c)
    ])
unfolding count_loop
read_round f st c e =
    ap
      (λ p. elim p.0 as (λ r. Ret × Stream × Option Cntr) [
        | done ↦ count_loop f p.2 (count_entry p.1 c)
        | ended ↦ (done, p.2, c)
        | failed ↦ (failed, p.2, c)
        | fault ↦ (fault, p.2, c)
      ])
      e

loop-list :
    (f : ℕ) (es : List Entry) (c : Option Cntr) (b : Bool)
    → All IsScanned es
    → length es < f
    → count_loop f (record { unread = scan_list es; broken = b }) c
      ≡ (done, record { unread = []; broken = b }, count_list es c)
loop-list zero es c b h l = absurd (omega arith)
loop-list (suc f) [] c b h l = read_round f _ c (fill-list_end b init_sbuf)
loop-list (suc f) (e ∷ es) c b h l =
    read_round f _ c (fill_phase1-scanned e h.0 (scan_list es) b)
    ∙ loop-list f es (count_entry (to_sbuf e) c) b h.1 (omega arith)

pub length-scan_list : (es : List Entry) → length es < length (scan_list es)
length-scan_list [] = omega arith
length-scan_list (e ∷ es) = omega (
  arith,
  length-scan_list es,
  length-append (scanned e) (scan_list es),
  length-append (frame cmd_stat e.statbuf) (frame e.cmd e.path ++ frame? e.cmd e.linkto),
)

pub read_phase1-list :
    (es : List Entry) (c : Option Cntr) (b : Bool)
    → All IsScanned es
    → read_phase1 (record { unread = scan_list es; broken = b }) c
      ≡ (done, record { unread = []; broken = b }, count_list es c)
unfolding read_phase1
read_phase1-list es c b h =
    loop-list (length (scan_list es) + 1) es c b h (omega (arith, length-scan_list es))
