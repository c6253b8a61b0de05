-- ===== src/Phase2/Receive/Complete.antt =====
-- The list of phase 2 in `do_stuff_to_receive` of src/backup_phase2_server.c.
use burp.Prelude.{
  ℕ, ◌≡◌, ◌≢◌, refl, Bool, true, false, not, ◌&&◌, ◌||◌, none, some, ltb, ◌==◌, length, if-cases,
  arith,
}
use burp.Prelude.Chars.{Bytes, c_str, codes, str_eq}
use burp.Cmd.{cmd_append, cmd_end_file, cmd_datapth, cmd_stat, cmd_warning, cmd_gen, cmd_interrupt}
use burp.Msg.{Ret, done, fault, is_done}
use burp.Sbuf.{Sbuf, filedata}
use burp.Sbuf.Manifest.{sbuf_to_fp}
use burp.Phase2.Receive.{
  Receiving, Files, treedata, make_file, start_to_receive_new_file, start_to_receive_delta,
  finish_file, receive_data, receive_next, do_stuff_to_receive,
}

module _ (fs : Files) where
  make_file-p2 : (t : Bool) (sb : Sbuf) (s : Receiving) → (make_file fs t sb s).1.p2 ≡ s.p2
  unfolding make_file
  make_file-p2 t sb s =
      let Same : Ret × Receiving → Type 0 = λ r. r.1.p2 ≡ s.p2 in
      if-cases Same (not (fs.makes _)) _ _ (λ e. refl) (λ e. refl)

  new_file-p2 : (s : Receiving) → (start_to_receive_new_file fs s).1.p2 ≡ s.p2
  unfolding start_to_receive_new_file
  new_file-p2 s =
      let Same : Ret × Receiving → Type 0 = λ r. r.1.p2 ≡ s.p2 in
      if-cases Same (not fs.directory_tree) _ _ (λ e. make_file-p2 false s.rb s)
        (λ e.
          elim (treedata s.rb)
            as (λ o. Same (elim o [ none ↦ (fault, s) | some (t, sb) ↦ make_file fs t sb s ])) [
              | none ↦ refl
              | some (t, sb) ↦ make_file-p2 t sb s
            ])

  delta-p2 : (s : Receiving) → (start_to_receive_delta fs s).1.p2 ≡ s.p2
  unfolding start_to_receive_delta
  delta-p2 s =
      let Same : Ret × Receiving → Type 0 = λ r. r.1.p2 ≡ s.p2 in
      if-cases Same (not fs.opens_delta) _ _ (λ e. refl) (λ e. refl)

  next-p2 : (c : ℕ) (buf : Bytes) (s : Receiving) → (receive_next fs c buf s).1.p2 ≡ s.p2
  unfolding receive_next
  next-p2 c buf s =
      let Same : Ret × Receiving → Type 0 = λ r. r.1.p2 ≡ s.p2 in
      let named = record s { rb = record s.rb { cmd = c; plen = length buf; path = some buf } } in
      if-cases Same (c == cmd_datapth) _ _ (λ e. refl)
        (λ e.
          if-cases Same (c == cmd_stat) _ _ (λ e. refl)
            (λ e.
              if-cases Same (filedata c) _ _
                (λ e.
                  elim s.rb.datapth
                    as (λ o. Same (elim o [
                      | none ↦ start_to_receive_new_file fs named
                      | some d ↦ start_to_receive_delta fs named
                    ])) [ none ↦ new_file-p2 named | some d ↦ delta-p2 named ])
                (λ e.
                  if-cases Same (c == cmd_gen && str_eq (c_str buf) (codes "okbackupphase2end")) _ _
                    (λ e. refl)
                    (λ e. if-cases Same (c == cmd_interrupt) _ _ (λ e. refl) (λ e. refl)))))

  -- The message ends a file that is open, and it could be closed and put in place.
  pub record Complete (c : ℕ) (s : Receiving) : Type 0 where
    pub is_end : (c == cmd_end_file) ≡ true
    pub is_open : (s.rb.fp || s.rb.zp) ≡ true
    pub is_closed : fs.closes ≡ true
    pub in_place : (ltb 0 s.rb.receivedelta && not fs.moves_delta) ≡ false

  module _ (c : ℕ) (buf : Bytes) (s : Receiving) where
    OnlyComplete : Ret × Receiving → Type 0
    OnlyComplete r = r.1.p2 ≢ s.p2 → Complete c s

    same-Only : (r : Ret × Receiving) → r.1.p2 ≡ s.p2 → OnlyComplete r
    unfolding OnlyComplete
    same-Only r e n = absurd (n e)

    data-Only : (s.rb.fp || s.rb.zp) ≡ true → OnlyComplete (receive_data fs c buf s)
    unfolding receive_data finish_file OnlyComplete
    data-Only o =
        if-cases OnlyComplete (c == cmd_append) _ _ (λ e. λ n. absurd (n refl))
          (λ e.
            if-cases OnlyComplete (c == cmd_end_file) _ _
              (λ f.
                if-cases OnlyComplete
                  (not fs.closes || (ltb 0 s.rb.receivedelta && not fs.moves_delta)) _ _
                  (λ g. λ n. absurd (n refl))
                  (λ g.
                    let all : Complete c s = record {
                      is_end = f;
                      is_open = o;
                      is_closed = ground arith;
                      in_place = ground arith;
                    } in
                    if-cases OnlyComplete (not (is_done (sbuf_to_fp _ true s.p2).0)) _ _
                      (λ h n. all) (λ h n. all)))
              (λ f. λ n. absurd (n refl)))

    message-Only : OnlyComplete (do_stuff_to_receive fs (done, some (c, buf)) s)
    unfolding do_stuff_to_receive OnlyComplete
    message-Only =
        if-cases OnlyComplete (c == cmd_warning) _ _ (λ e n. absurd (n refl))
          (λ e.
            if-cases OnlyComplete (s.rb.fp || s.rb.zp) _ _ (λ f. data-Only f)
              (λ f. same-Only (receive_next fs c buf s) (next-p2 c buf s)))

    -- Where a message from the client changes the list of phase 2, it is the end of a file, a file
    -- is open, the file could be closed, and a delta could be moved into its place: no file that
    -- was received in part gets into the list.
    pub receive-Complete :
        (do_stuff_to_receive fs (done, some (c, buf)) s).1.p2 ≢ s.p2 → Complete c s
    unfolding OnlyComplete
    receive-Complete = message-Only
