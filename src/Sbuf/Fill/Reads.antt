-- ===== src/Sbuf/Fill/Reads.antt =====
-- `sbuf_fill` of src/sbuf.c on the messages of an entry.
use mathlib.Core.List.{append_assoc}
use burp.Prelude.{
  ℕ, suc, ◌+◌, ◌-◌, ◌<◌, ◌≡◌, refl, ◌∙◌, Bool, true, false, not, ◌&&◌, Option, none, some, [], ◌++◌,
  ◌==◌, arith, if◌then◌else◌, length, length-append,
}
use burp.Prelude.Chars.{Bytes}
use burp.Cmd.{cmd_datapth, cmd_stat, cmd_end_file}
use burp.Msg.{Ret, done, ended, Stream, Msg}
use burp.Msg.RoundTrip.{
  frame, async_read_fp-frame, async_read_fp-short, async_read_fp-end, short_read, async_read_fp-end,
}
use burp.Sbuf.{Sbuf, init_sbuf, cmd_is_link, filedata, ends_phase}
use burp.Sbuf.Entry.{Entry, size, to_sbuf, Present, IsDatapth, IsEntry, frame?, messages}
use burp.Sbuf.Fill.{
  sbuf_fill, do_sbuf_fill_from_file, read_stat_file, stat_loop, read_path, read_link, read_endfile,
  take_stat,
}

-- The stat data of an entry, and then the rest of it.
unfoldable pub after_stat : Option Bytes → Entry → Sbuf
after_stat d e = record init_sbuf {
  datapth = d;
  statbuf = some e.statbuf;
  statp = e.decoded.statp;
  winattr = e.decoded.winattr;
  slen = length e.statbuf;
  compression = e.decoded.compression;
}

module _ (e : Entry) (h : IsEntry e) where
  pub take_stat-entry :
      (d : Option Bytes)
      → take_stat d
          (record { cmd = cmd_stat; buf = some e.statbuf; len = length e.statbuf })
          init_sbuf
        ≡ (done, after_stat d e)
  unfolding take_stat after_stat
  take_stat-entry d = rw (h.decodes, take_stat)

  stat_loop-stat :
      (f : ℕ) (d : Option Bytes) (m : Msg) (rest : Bytes) (b : Bool)
      → stat_loop
          (suc f)
          d
          m
          init_sbuf
          (record { unread = frame cmd_stat e.statbuf ++ rest; broken = b })
        ≡ (done, after_stat d e, record { unread = rest; broken = b })
  unfolding stat_loop
  stat_loop-stat f d m rest b =
      rw (async_read_fp-frame m cmd_stat e.statbuf rest b (omega arith) h.stat_lt, stat_loop)
        (rw (take_stat-entry d) (ground arith))

stat_loop-datapth :
    (f : ℕ) (m : Msg) (p : Bytes) (sb : Sbuf) (rest : Bytes) (b : Bool)
    → length p < 65536
    → stat_loop (suc f) none m sb (record { unread = frame cmd_datapth p ++ rest; broken = b })
      ≡ stat_loop f
          (some p)
          (record { cmd = cmd_datapth; buf = none; len = length p })
          sb
          (record { unread = rest; broken = b })
unfolding stat_loop
stat_loop-datapth f m p sb rest b h =
    rw (async_read_fp-frame m cmd_datapth p rest b (omega arith) h, stat_loop) (ground arith)

module _ (e : Entry) (h : IsEntry e) where
  read_stat_loop :
      (f : ℕ) (d : Option Bytes) (m : Msg) (rest : Bytes) (b : Bool)
      → IsDatapth d
      → stat_loop (suc (suc f)) none m init_sbuf (record {
        unread = frame? cmd_datapth d ++ (frame cmd_stat e.statbuf ++ rest);
        broken = b;
      })
        ≡ (done, after_stat d e, record { unread = rest; broken = b })
  read_stat_loop f none m rest b p = stat_loop-stat e h (suc f) none m rest b
  read_stat_loop f (some d) m rest b p =
      stat_loop-datapth (suc f) m d init_sbuf (frame cmd_stat e.statbuf ++ rest) b p.0
      ∙ stat_loop-stat e h f (some d) _ rest b

  pub read_stat :
      (rest : Bytes) (b : Bool)
      → read_stat_file init_sbuf (record {
        unread = frame? cmd_datapth e.datapth ++ (frame cmd_stat e.statbuf ++ rest);
        broken = b;
      })
        ≡ (done, after_stat e.datapth e, record { unread = rest; broken = b })
  unfolding read_stat_file
  read_stat rest b =
      let n = length (frame? cmd_datapth e.datapth ++ (frame cmd_stat e.statbuf ++ rest)) in
      let q : n + 1 ≡ suc (suc (n - 1)) =
        omega (
          arith,
          length-append (frame? cmd_datapth e.datapth) (frame cmd_stat e.statbuf ++ rest),
        ) in
      rw q (read_stat_loop (n - 1) e.datapth _ rest b h.datapth_string)

filedata_no_link : (c : ℕ) → filedata c ≡ true → cmd_is_link c ≡ false
unfolding filedata cmd_is_link
filedata_no_link c h = ground arith

pub Present-none : (there : Bool) → Present there none → there ≡ false
Present-none true h = absurd h
Present-none false h = refl

pub Present-some :
    (there : Bool) (s : Bytes) → Present there (some s) → (there ≡ true) × (length s < 65536)
Present-some true s h = (refl, h)
Present-some false s h = absurd h

pub read_link-frame :
    (sb : Sbuf) (c : ℕ) (l rest : Bytes) (b : Bool)
    → 0 < c
    → cmd_is_link c ≡ true
    → length l < 65536
    → read_link sb (record { unread = frame c l ++ rest; broken = b })
      ≡ (done, record sb { linkto = some l; llen = length l }, record { unread = rest; broken = b })
unfolding read_link
read_link-frame sb c l rest b pos link h =
    rw
      (
        async_read_fp-frame (record { cmd = 0; buf = sb.linkto; len = sb.llen }) c l rest b pos h,
        read_link,
      )
      (ground arith)

read_endfile-frame :
    (sb : Sbuf) (l rest : Bytes) (b : Bool)
    → length l < 65536
    → read_endfile sb (record { unread = frame cmd_end_file l ++ rest; broken = b }) ≡ (
      done,
      record sb { endfile = some l; elen = length l },
      record { unread = rest; broken = b },
    )
unfolding read_endfile
read_endfile-frame sb l rest b h =
    rw
      (
        async_read_fp-frame (record { cmd = 0; buf = sb.endfile; len = sb.elen }) cmd_end_file l
            rest b (omega arith) h,
        read_endfile,
      )
      (ground arith)

-- What `read_path` does once the path is there.
pub read_path-frame :
    (phase1 : Bool) (sb : Sbuf) (c : ℕ) (p rest : Bytes) (b : Bool)
    → 0 < c
    → length p < 65536
    → read_path phase1 sb (record { unread = frame c p ++ rest; broken = b }) ≡ (
        let sb' = record sb { cmd = c; path = some p; plen = length p } in
        let st : Stream = record { unread = rest; broken = b } in
        if cmd_is_link c
        then read_link sb' st
        else if not phase1 && filedata c
        then read_endfile sb' st
        else (done, sb', st))
unfolding read_path
read_path-frame phase1 sb c p rest b pos h =
    rw
      (
        async_read_fp-frame (record { cmd = sb.cmd; buf = sb.path; len = sb.plen }) c p rest b pos
            h,
        read_path,
      )
      (ground arith)

append_five :
    (a b c d e r : Bytes) → (a ++ (b ++ (c ++ (d ++ e)))) ++ r ≡ a ++ (b ++ (c ++ (d ++ (e ++ r))))
append_five a b c d e r = simp append_assoc

messages-append :
    (e : Entry) (rest : Bytes)
    → messages e ++ rest
      ≡ frame? cmd_datapth e.datapth
        ++ (frame cmd_stat e.statbuf
            ++ (frame e.cmd e.path
                ++ (frame? e.cmd e.linkto ++ (frame? cmd_end_file e.endfile ++ rest))))
messages-append e rest =
    append_five (frame? cmd_datapth e.datapth) (frame cmd_stat e.statbuf) (frame e.cmd e.path)
      (frame? e.cmd e.linkto) (frame? cmd_end_file e.endfile) rest

-- The two parts of `do_sbuf_fill_from_file`, one behind the other.
pub fill-parts :
    (st : Stream) {st' : Stream} {sb : Sbuf} (p : Bool) (end : Ret × Sbuf × Stream)
    → read_stat_file init_sbuf st ≡ (done, sb, st')
    → read_path p sb st' ≡ end
    → do_sbuf_fill_from_file p init_sbuf st ≡ end
unfolding do_sbuf_fill_from_file
fill-parts st p end e f = ground arith

module _ (e : Entry) (h : IsEntry e) (rest : Bytes) (b : Bool) where
  -- The strings behind the path, present or not.
  read_parts :
      (l n : Option Bytes)
      → Present (cmd_is_link e.cmd) l
      → Present (filedata e.cmd) n
      → read_path false (after_stat e.datapth e) (record {
        unread = frame e.cmd e.path ++ (frame? e.cmd l ++ (frame? cmd_end_file n ++ rest));
        broken = b;
      })
        ≡ (
          done,
          record (to_sbuf e) { linkto = l; llen = size l; endfile = n; elen = size n },
          record { unread = rest; broken = b },
        )
  unfolding after_stat
  read_parts none none hl hn =
      rw (read_path-frame false _ e.cmd e.path _ b h.cmd_pos h.path_lt)
        (rw (Present-none _ hl) (rw (Present-none _ hn) refl))
  read_parts (some l) none hl hn =
      let (link, lt) = Present-some _ l hl in
      rw (read_path-frame false _ e.cmd e.path _ b h.cmd_pos h.path_lt)
        (rw link (read_link-frame _ e.cmd l rest b h.cmd_pos link lt))
  read_parts none (some n) hl hn =
      let (end, lt) = Present-some _ n hn in
      rw (read_path-frame false _ e.cmd e.path _ b h.cmd_pos h.path_lt)
        (rw (Present-none _ hl) (rw end (read_endfile-frame _ n rest b lt)))
  read_parts (some l) (some n) hl hn =
      let link = (Present-some _ l hl).0 in
      let end = (Present-some _ n hn).0 in cc (link, filedata_no_link e.cmd end)

  -- On a fresh `struct sbuf`, `sbuf_fill` reads the messages of a well-formed entry back to the
  -- `struct sbuf` of that entry, and leaves the file at what follows them.
  pub fill-messages :
      sbuf_fill init_sbuf (record { unread = messages e ++ rest; broken = b })
      ≡ (done, to_sbuf e, record { unread = rest; broken = b })
  unfolding sbuf_fill
  fill-messages = rw (messages-append e rest) (
      fill-parts _ _ _ (read_stat e h _ b)
        (read_parts e.linkto e.endfile h.link_present h.end_present))

read_stat-end :
    (f : ℕ) (m : Msg) (sb : Sbuf) (b : Bool)
    → stat_loop (suc f) none m sb (record { unread = []; broken = b })
      ≡ (short_read b, sb, record { unread = []; broken = b })
unfolding stat_loop
read_stat-end f m sb true = rw (async_read_fp-end m true) refl
read_stat-end f m sb false = rw (async_read_fp-end m false) refl

-- At the end of a file `sbuf_fill` returns 1, or -1 after a read error, and leaves the `struct
-- sbuf` as it is.
pub fill-end :
    (sb : Sbuf) (b : Bool)
    → sbuf_fill sb (record { unread = []; broken = b })
      ≡ (short_read b, sb, record { unread = []; broken = b })
unfolding sbuf_fill do_sbuf_fill_from_file read_stat_file
fill-end sb true = rw (read_stat-end 0 _ sb true) refl
fill-end sb false = rw (read_stat-end 0 _ sb false) refl

read_stat-ends_phase :
    (f c : ℕ) (m : Msg) (sb : Sbuf) (buf rest : Bytes) (b : Bool)
    → 0 < c
    → length buf < 65536
    → ends_phase c buf ≡ true
    → (c == cmd_datapth) ≡ false
    → (c == cmd_stat) ≡ false
    → stat_loop (suc f) none m sb (record { unread = frame c buf ++ rest; broken = b })
      ≡ (ended, sb, record { unread = rest; broken = b })
unfolding stat_loop
read_stat-ends_phase f c m sb buf rest b pos h e d s =
    rw (async_read_fp-frame m c buf rest b pos h, d, s, e) refl

-- A message that ends a phase ends the entries of a file.
pub fill-ends_phase :
    (p : Bool) (c : ℕ) (sb : Sbuf) (buf rest : Bytes) (b : Bool)
    → 0 < c
    → length buf < 65536
    → ends_phase c buf ≡ true
    → (c == cmd_datapth) ≡ false
    → (c == cmd_stat) ≡ false
    → do_sbuf_fill_from_file p sb (record { unread = frame c buf ++ rest; broken = b })
      ≡ (ended, sb, record { unread = rest; broken = b })
unfolding do_sbuf_fill_from_file read_stat_file
fill-ends_phase p c sb buf rest b pos h e d s =
    let f = length (frame c buf ++ rest) in
    let q : f + 1 ≡ suc f = omega arith in
    rw q (rw (read_stat-ends_phase f c _ sb buf rest b pos h e d s) refl)

stat_loop-short :
    (f : ℕ) (m : Msg) (sb : Sbuf) (bs : Bytes) (b : Bool)
    → length bs < 5
    → stat_loop (suc f) none m sb (record { unread = bs; broken = b })
      ≡ (short_read b, sb, record { unread = []; broken = b })
unfolding stat_loop
stat_loop-short f m sb bs true h = rw (async_read_fp-short m bs true h) refl
stat_loop-short f m sb bs false h = rw (async_read_fp-short m bs false h) refl

-- A file that ends in the header of the first message.
pub fill-short :
    (sb : Sbuf) (bs : Bytes) (b : Bool)
    → length bs < 5
    → sbuf_fill sb (record { unread = bs; broken = b })
      ≡ (short_read b, sb, record { unread = []; broken = b })
unfolding sbuf_fill do_sbuf_fill_from_file read_stat_file
fill-short sb bs true h =
    let q : length bs + 1 ≡ suc (length bs) = omega arith in
    rw q (rw (stat_loop-short (length bs) _ sb bs true h) refl)
fill-short sb bs false h =
    let q : length bs + 1 ≡ suc (length bs) = omega arith in
    rw q (rw (stat_loop-short (length bs) _ sb bs false h) refl)
