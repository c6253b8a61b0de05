-- ===== src/Phase2/Rounds.antt =====
-- The loop of `backup_phase2_server` of src/backup_phase2_server.c: a round takes a message from the
-- client, puts what is flagged into the write buffer and, when nothing is left to be sent, takes the
-- next entry of phase 1 and looks for it in the manifest of the last backup.
pub mod Search
pub mod Placed
pub mod Left
pub mod Steps
use burp.Prelude.{
  ℕ, zero, suc, ◌+◌, Bool, true, false, not, ◌&&◌, ◌||◌, Option, none, some, List, [], ◌∷◌,
  if◌then◌else◌, length,
}
use burp.Prelude.Chars.{Bytes}
use burp.Counter.{Cntr}
use burp.Dpth.{Dpth}
use burp.Msg.{Ret, done, ended, failed, fault, is_done, Sink, Stream}
use burp.Sbuf.{Sbuf, init_sbuf, free_sbuf}
use burp.Sbuf.Fill.{sbuf_fill, sbuf_fill_phase1}
use burp.Phase2.{Conf, Scan, process_new, maybe_process_file}
use burp.Phase2.Send.{Sending, RsResult, do_stuff_to_send}
use burp.Phase2.Receive.{Receiving, Files, do_stuff_to_receive}

-- The loop over the manifest ends, or goes on behind an entry.
pub data Look : Type 0 where
  found : Ret → Scan → Option Stream → Look
  further : Scan → Stream → Look

abbrev pub is_some {ℓ} : {A : Type ℓ} → Option A → Bool
is_some none = false
is_some (some a) = true

-- "goto error" for every result of `process_new` but 0.
abbrev zero_or_error : Ret → Ret
zero_or_error done = done
zero_or_error fault = fault
zero_or_error _ = failed

module _ (opens : Bool → Bytes → Bool) (conf : Conf) where
  -- An entry of the manifest against the one of phase 1.
  pub compare_entry : Scan → Stream → Look
  unfolding maybe_process_file
  compare_entry s st =
      let (r, s') = maybe_process_file opens conf s in
      elim r [
        | done ↦ further s' st
        | ended ↦ found done s' (some st)
        | failed ↦ found failed s' (some st)
        | fault ↦ found fault s' (some st)
      ]

  -- What `sbuf_fill` gave. At the end of the manifest it is closed.
  pub look_at : Ret × Sbuf × Stream → Scan → Look
  unfolding compare_entry process_new
  look_at (done, b, st) s = compare_entry (record s { cb = b }) st
  look_at (ended, b, st) s =
      let (r, s') = process_new (record s { cb = b }) in found (zero_or_error r) s' none
  look_at (failed, b, st) s = found failed (record s { cb = b }) (some st)
  look_at (fault, b, st) s = found fault (record s { cb = b }) (some st)

  -- A round takes an entry from the manifest, or ends.
  pub search : ℕ → Scan → Stream → Ret × Scan × Option Stream
  unfolding look_at
  search zero s st = (failed, s, some st)
  search (suc f) s st = elim (look_at (sbuf_fill (free_sbuf s.cb) st) s) [
    | found r s' m ↦ (r, s', m)
    | further s' st' ↦ search f s' st'
  ]

  -- "Might already have it, or be ahead in the old manifest."
  pub process_ahead : Scan → Stream → Ret × Scan × Option Stream
  unfolding compare_entry search
  process_ahead s st = elim (compare_entry s st) [
    | found r s' m ↦ (r, s', m)
    | further s' st' ↦ search (length st.unread + 1) s' st'
  ]

  -- An entry of phase 1, in `p1b`.
  unfoldable pub process_entry : Scan → Option Stream → Ret × Scan × Option Stream
  unfolding process_ahead search process_new
  process_entry s none = let (r, s') = process_new s in (zero_or_error r, s', none)
  process_entry s (some st) =
      if is_some s.cb.path then process_ahead s st else search (length st.unread + 1) s st

-- The variables of the loop, with the write buffer of the connection.
pub record Backup : Type 0 where
  pub scan : Scan
  pub man : Option Stream
  pub p1 : Option Stream
  pub rb : Sbuf
  pub p2 : Sink
  pub dpth : Dpth
  pub last_requested : Option Bytes
  pub writebuf : Bytes

-- What a round gets from outside: the result of `async_rw`, with a message and what it leaves in the
-- write buffer; what `rs_async` does; and what `async_write_str` returns and leaves.
pub record Answer : Type 0 where
  pub got : Ret × Option (ℕ × Bytes)
  pub drains : Bytes → Bytes
  pub rs_async : Bytes → RsResult × Bytes
  pub says_end : Bytes → Bool × Bytes

-- A round leaves the loop, or goes on.
pub data Turn : Type 0 where
  leave : Ret → Backup → Turn
  again : Backup → Turn

abbrev filled : Bytes → Bool
filled [] = false
filled (c ∷ w) = true

module _ (fs : Files) (opens : Bool → Bytes → Bool) (conf : Conf) where
  -- Receiving is skipped when nothing is to be waited for.
  pub receive_part : Answer → Backup → Ret × Backup
  receive_part a s =
      let (r, t) = do_stuff_to_receive fs a.got (record {
        rb = s.rb;
        p2 = s.p2;
        dpth = s.dpth;
        last_requested = s.last_requested;
        cntr = s.scan.cntr;
      }) in
      if is_some s.last_requested || not (is_some s.p1) || filled s.writebuf
      then (
        r,
        record s {
          scan = record s.scan { cntr = t.cntr };
          rb = t.rb;
          p2 = t.p2;
          dpth = t.dpth;
          last_requested = t.last_requested;
          writebuf = a.drains s.writebuf;
        },
      )
      else (done, s)

  pub send_part : Answer → Backup → Ret × Backup
  send_part a s =
      let (r, t) =
        do_stuff_to_send a.rs_async
          (record { p1b = s.scan.p1b; writebuf = s.writebuf; last_requested = s.last_requested }) in
      (
        r,
        record s {
          scan = record s.scan { p1b = t.p1b };
          writebuf = t.writebuf;
          last_requested = t.last_requested;
        },
      )

  -- The entry in `p1b` is looked for.
  pub look_up : Backup → Turn
  unfolding process_entry
  look_up s =
      let (r, scan, man) = process_entry opens conf s.scan s.man in
      let s' = record s { scan = scan; man = man } in if is_done r then again s' else leave r s'

  -- The entry of phase 1 that was read, or its end: then the client is told, and what there is of an
  -- entry is still looked for.
  pub next_part : Answer → Ret × Sbuf × Stream → Backup → Turn
  unfolding look_up
  next_part a (done, b, st) s =
      look_up (record s { scan = record s.scan { p1b = b }; p1 = some st })
  next_part a (ended, b, st) s =
      let (ok, w) = a.says_end s.writebuf in
      let s' = record s { scan = record s.scan { p1b = b }; p1 = none; writebuf = w } in
      if ok then look_up s' else leave failed s'
  next_part a (r, b, st) s = leave r (record s { scan = record s.scan { p1b = b }; p1 = some st })

  -- Nothing is left to be sent.
  pub read_part : Answer → Backup → Turn
  unfolding next_part
  read_part a s = elim s.p1 [
    | none ↦ again s
    | some st ↦ next_part a (sbuf_fill_phase1 (free_sbuf s.scan.p1b) st) s
  ]

  pub sent : Answer → Ret × Backup → Turn
  unfolding read_part
  sent a (done, s) = read_part a s
  sent a (ended, s) = again s
  sent a (r, s) = leave r s

  pub received : Answer → Ret × Backup → Turn
  unfolding sent send_part
  received a (done, s) = sent a (send_part a s)
  received a (ended, s) = leave done s
  received a (r, s) = leave r s

  unfoldable pub turn : Answer → Backup → Turn
  unfolding received receive_part
  turn a s = received a (receive_part a s)

  -- The rounds for these answers; the loop waits when there are no more.
  pub rounds : List Answer → Backup → Turn
  unfolding turn
  rounds [] s = again s
  rounds (a ∷ answers) s = elim (turn a s) [
    | leave r s' ↦ leave r s'
    | again s' ↦ rounds answers s'
  ]

  -- What is behind the loop: `ret`, and whether the list of phase 1 is removed. `closes_p2` and
  -- `closes_uc` say whether closing the two files succeeds.
  unfoldable pub closing : Bool → Bool → Ret → Ret × Bool
  closing closes_p2 closes_uc r =
      let ok = is_done r && closes_p2 && closes_uc in (if ok then done else failed, ok)

  -- The loop with what is behind it, from the files as they are opened or as `do_resume` leaves them;
  -- none while it waits.
  unfoldable pub backup_phase2_server : Bool → Bool → List Answer → Backup → Option (Ret × Bool)
  unfolding rounds closing
  backup_phase2_server closes_p2 closes_uc answers s = elim (rounds answers s) [
    | leave r s' ↦ some (closing closes_p2 closes_uc r)
    | again s' ↦ none
  ]
