-- ===== src/Phase1/Counted.antt =====
-- Phase 1 (src/backup_phase1_server.c), and the same list read again for a resumed backup.
use mathlib.Core.List.{append_assoc}
use burp.Prelude.{
  ℕ, zero, suc, ◌+◌, ◌-◌, ◌<◌, ◌≤◌, ◌≡◌, refl, ap, ◌∙◌, true, false, not, Option, none, some, List,
  [], ◌∷◌, ◌++◌, arith, if◌then◌else◌, length, length-append, All,
}
use burp.Prelude.Chars.{Bytes, codes, c_str, str_eq}
use burp.Cmd.{cmd_stat, cmd_gen}
use burp.Counter.{Cntr}
use burp.Msg.{Ret, done, ended, is_done, Sink}
use burp.Sbuf.{Sbuf, init_sbuf, cmd_is_link, ends_phase}
use burp.Sbuf.Entry.{Entry, size, to_sbuf, Present}
use burp.Sbuf.Fill.{
  do_sbuf_fill_from_net, read_stat_net, read_path_net, read_link_net, async_read, Inbox,
}
use burp.Sbuf.Fill.Reads.{after_stat, Present-none, Present-some, take_stat-entry}
use burp.Sbuf.Manifest.{sbuf_to_fp}
use burp.Sbuf.Manifest.Writes.{Writes, Writes-send, Writes-without_end}
use burp.Phase1.{
  count_entry, Scanning, end_phase1, phase1_loop, finish_phase1, backup_phase1_server, read_phase1,
}
use burp.Phase1.Fill.{ended_entry, ended_entry-IsEntry, IsScanned, scanned, scanned_sbuf}
use burp.Phase1.Listed.{list_end, scan_list, count_list, read_phase1-list}

-- The entries, as the client sends them.
abbrev link_message : ℕ → Option Bytes → Inbox → Inbox
link_message cmd none rest = rest
link_message cmd (some l) rest = (cmd, l) ∷ rest

abbrev pub sent_list : List Entry → Inbox
sent_list [] = (cmd_gen, codes "backupphase2") ∷ []
sent_list (e ∷ es) =
    (cmd_stat, e.statbuf) ∷ (e.cmd, e.path) ∷ link_message e.cmd e.linkto (sent_list es)

-- `backup_phase1_server`
module _ (e : Entry) (h : IsScanned e) where
  Writes-scanned : Writes (sbuf_to_fp (to_sbuf e) false) (scanned e)
  Writes-scanned = Writes-without_end e h.no_datapth h.stat_lt h.path_lt h.link_present

  net-stat :
      (c : Option Cntr) (rest : Inbox)
      → read_stat_net none init_sbuf c ((cmd_stat, e.statbuf) ∷ rest)
        ≡ (done, after_stat none e, c, rest)
  unfolding read_stat_net ended_entry after_stat
  net-stat c rest =
      ap (λ s. (s.0, s.1, c, rest)) (take_stat-entry (ended_entry e) (ended_entry-IsEntry e h) none)

  net-path :
      (l : Option Bytes) (c : Option Cntr) (rest : Inbox)
      → Present (cmd_is_link e.cmd) l
      → read_path_net (after_stat none e) c ((e.cmd, e.path) ∷ link_message e.cmd l rest) ≡ (
        done,
        record (to_sbuf e) { datapth = none; linkto = l; llen = size l; endfile = none; elen = 0 },
        c,
        rest,
      )
  unfolding read_path_net read_link_net async_read after_stat
  net-path none c rest p = rw (Present-none _ p) refl
  net-path (some l) c rest p = let (link, lt) = Present-some _ l p in rw link refl

  net-scanned :
      (c : Option Cntr) (rest : Inbox)
      → do_sbuf_fill_from_net init_sbuf c
          ((cmd_stat, e.statbuf) ∷ (e.cmd, e.path) ∷ link_message e.cmd e.linkto rest)
        ≡ (done, to_sbuf e, c, rest)
  unfolding do_sbuf_fill_from_net
  net-scanned c rest =
      let end = (e.cmd, e.path) ∷ link_message e.cmd e.linkto rest in
      ap
        (λ (p : Ret × Sbuf × Option Cntr × Inbox).
          if not (is_done p.0) then p else read_path_net p.1 p.2 p.3)
        (net-stat c end)
      ∙ net-path e.linkto c rest h.link_present
      ∙ ap (λ x. (done, x, c, rest)) (scanned_sbuf e h)

net-list_end :
    (c : Option Cntr) (sb : Sbuf) → do_sbuf_fill_from_net sb c (sent_list []) ≡ (ended, sb, c, [])
unfolding do_sbuf_fill_from_net read_stat_net ends_phase str_eq c_str
net-list_end c sb = refl

length-link_message :
    (cmd : ℕ) (l : Option Bytes) (rest : Inbox) → length rest ≤ length (link_message cmd l rest)
length-link_message cmd none rest = omega arith
length-link_message cmd (some l) rest = omega arith

length-sent_list : (es : List Entry) → length es < length (sent_list es) + 1
length-sent_list [] = omega arith
length-sent_list (e ∷ es) =
    let l = length-sent_list es in
    let m = length-link_message e.cmd e.linkto (sent_list es) in omega arith

-- The state of phase 1 behind a list that was received.
abbrev behind : List Entry → Scanning → Scanning
behind es s = record {
  p1 = record { written = s.p1.written ++ scan_list es; room = s.p1.room - length (scan_list es) };
  p1cntr = count_list es s.p1cntr;
}

joined :
    (k : Sink) (a b : Bytes)
    → ◌≡◌ {A = Sink}
        (record { written = (k.written ++ a) ++ b; room = k.room - length a - length b })
        (record { written = k.written ++ (a ++ b); room = k.room - length (a ++ b) })
joined k a b = ground (arith, append_assoc k.written a b, length-append a b)

-- A round, by what is received and what is written.
phase1_round :
    (f : ℕ) (inbox : Inbox) (s : Scanning) {sb : Sbuf} {rest : Inbox} {k : Sink}
    → do_sbuf_fill_from_net init_sbuf s.p1cntr inbox ≡ (done, sb, s.p1cntr, rest)
    → sbuf_to_fp sb false s.p1 ≡ (done, k)
    → phase1_loop (suc f) true inbox s
      ≡ phase1_loop f true rest (record { p1 = k; p1cntr = count_entry sb s.p1cntr })
unfolding phase1_loop
phase1_round f inbox s {sb} {rest} {k} e w = rw (e, w) refl

phase1_end :
    (f : ℕ) (s : Scanning)
    → length list_end ≤ s.p1.room
    → phase1_loop (suc f) true (sent_list []) s ≡ (done, behind [] s)
unfolding phase1_loop end_phase1
phase1_end f s r =
    let w = (Writes-send cmd_gen (codes "phase1end") 9 refl (omega arith)).at s.p1 r in
    rw (net-list_end s.p1cntr init_sbuf, w) refl

loop-sent :
    (f : ℕ) (es : List Entry) (s : Scanning)
    → All IsScanned es
    → length es < f
    → length (scan_list es) ≤ s.p1.room
    → phase1_loop f true (sent_list es) s ≡ (done, behind es s)
loop-sent zero es s h l r = absurd (omega arith)
loop-sent (suc f) [] s h l r = phase1_end f s r
loop-sent (suc f) (e ∷ es) s h l r =
    let n = length-append (scanned e) (scan_list es) in
    phase1_round f _ s (net-scanned e h.0 s.p1cntr (sent_list es))
      ((Writes-scanned e h.0).at s.p1 (omega arith))
    ∙ loop-sent f es _ h.1 (omega arith) (omega arith)
    ∙ ap (λ k. (done, record { p1 = k; p1cntr = count_list (e ∷ es) s.p1cntr }))
        (joined s.p1 (scanned e) (scan_list es))

-- On well-formed entries as the client sends them, with room for the list on the disk, where the
-- reply can be sent and the file closed and renamed, phase 1 returns 0 and leaves the list of
-- these entries with its end; and `read_phase1` on that list returns 0 and counts exactly what
-- phase 1 had counted.
pub phase1-counted :
    (room : ℕ) (es : List Entry) (c : Option Cntr)
    → All IsScanned es
    → length (scan_list es) ≤ room
    → (backup_phase1_server true true true room (sent_list es) c
        ≡ (done, some (scan_list es), count_list es c))
      × (read_phase1 (record { unread = scan_list es; broken = false }) c
          ≡ (done, record { unread = []; broken = false }, count_list es c))
unfolding backup_phase1_server finish_phase1
phase1-counted room es c h r = (
  rw
      (loop-sent (length (sent_list es) + 1) es
        (record { p1 = record { written = []; room = room }; p1cntr = c }) h (length-sent_list es)
        r)
      refl,
  read_phase1-list es c false h,
)
