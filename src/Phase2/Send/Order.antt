-- ===== src/Phase2/Send/Order.antt =====
-- The parts of an entry in `do_stuff_to_send` of src/backup_phase2_server.c.
use mathlib.Core.List.{append_assoc, append-nil}
use burp.Prelude.{
  ℕ, ◌<◌, ◌≡◌, refl, ◌∙◌, sym, ap, true, false, not, ◌&&◌, [], ◌++◌, ◌==◌, if◌then◌else◌, length,
  arith, if-cases,
}
use burp.Prelude.Chars.{Bytes, c_str}
use burp.Cmd.{cmd_datapth, cmd_stat}
use burp.Msg.{Ret, is_done}
use burp.Net.{append_all}
use burp.Net.Framing.{net_frame}
use burp.Net.Link.{append_all-true}
use burp.Sbuf.{Sbuf}
use burp.Phase2.Send.{Sending, bytes_of, send_datapth, send_stat, send_path, send_flagged, is_null}

-- The frame of a part that is flagged.
abbrev pub flagged : ℕ → ℕ → Bytes → Bytes
flagged flag cmd b = if flag == 0 then [] else net_frame cmd b

abbrev pub pending_datapth : Sbuf → Bytes
pending_datapth sb = flagged sb.senddatapth cmd_datapth (c_str (bytes_of sb.datapth))

abbrev pub pending_stat : Sbuf → Bytes
pending_stat sb = flagged sb.sendstat cmd_stat (bytes_of sb.statbuf)

abbrev pub pending_path : Sbuf → Bytes
pending_path sb = flagged sb.sendpath sb.cmd (bytes_of sb.path)

-- What is still to be put into the write buffer, in order.
abbrev pub pending : Sbuf → Bytes
pending sb = pending_datapth sb ++ (pending_stat sb ++ pending_path sb)

-- The lengths are those of the strings.
pub record Sized (sb : Sbuf) : Type 0 where
  pub cmd_pos : 0 < sb.cmd
  pub slen_eq : sb.slen ≡ length (bytes_of sb.statbuf)
  pub plen_eq : sb.plen ≡ length (bytes_of sb.path)

-- The write buffer and what follows it.
abbrev pub total : Sending → Bytes
total s = s.writebuf ++ pending s.p1b

-- One part, where `fits` and `w` are what the buffer answers.
append-part :
    (c : ℕ) (b w : Bytes)
    → 0 < c
    → (append_all c b (length b) w).0 ≡ true
    → (append_all c b (length b) w).1 ≡ w ++ net_frame c b
append-part c b w h e =
    append_all-true c b w (append_all c b (length b) w).1 h
      (ap (λ t. (t, (append_all c b (length b) w).1)) e)

flagged-on : (flag c : ℕ) (b : Bytes) → (flag == 0) ≡ false → flagged flag c b ≡ net_frame c b
flagged-on flag c b e = ap (λ t. if t then [] else net_frame c b) e

-- A flagged part that fits goes from the front of what is pending to the end of the buffer.
moves :
    (flag c : ℕ) (b w rest : Bytes)
    → 0 < c
    → (flag == 0) ≡ false
    → not (append_all c b (length b) w).0 ≡ false
    → (append_all c b (length b) w).1 ++ rest ≡ w ++ (flagged flag c b ++ rest)
moves flag c b w rest h e f =
    ap (λ t. t ++ rest) (append-part c b w h (ground arith))
    ∙ append_assoc w (net_frame c b) rest
    ∙ ap (λ t. w ++ (t ++ rest)) (sym (flagged-on flag c b e))

-- Nothing is lost, the lengths stay, and a finished part is no longer flagged.
Datapth : Sending → Ret × Sending → Type 0
Datapth s (r, s') =
    (total s' ≡ total s) × Sized s'.p1b × (is_done r ≡ true → (s'.p1b.senddatapth == 0) ≡ true)

Datapth-part : (s : Sending) → Sized s.p1b → Datapth s (send_datapth s)
unfolding send_datapth Datapth
Datapth-part s h =
    let d = c_str (bytes_of s.p1b.datapth) in
    if-cases (Datapth s) (s.p1b.senddatapth == 0) _ _ (λ e. (refl, h, λ o. e))
      (λ e.
        if-cases (Datapth s) (is_null s.p1b.datapth) _ _ (λ n. (refl, h, λ o. ground arith))
          (λ n.
            if-cases (Datapth s) (not (append_all cmd_datapth d (length d) s.writebuf).0) _ _
              (λ f. (refl, h, λ o. ground arith))
              (λ f. (
                moves s.p1b.senddatapth cmd_datapth d s.writebuf
                    (pending_stat s.p1b ++ pending_path s.p1b) (omega arith) e f,
                record { cmd_pos = h.cmd_pos; slen_eq = h.slen_eq; plen_eq = h.plen_eq },
                λ o. refl,
              ))))

Flag : Sending → Ret × Sending → Type 0
Flag s (r, s') =
    (total s' ≡ total s)
    × Sized s'.p1b
    × (is_done r ≡ true → ((s'.p1b.senddatapth == 0) ≡ true) × ((s'.p1b.sendstat == 0) ≡ true))

flagged-off : (flag c : ℕ) (b : Bytes) → (flag == 0) ≡ true → flagged flag c b ≡ []
flagged-off flag c b e = ap (λ t. if t then [] else net_frame c b) e

-- The same behind parts that are no longer flagged.
behind :
    (flag c : ℕ) (b : Bytes) (n : ℕ) (w pre rest : Bytes)
    → 0 < c
    → pre ≡ []
    → n ≡ length b
    → (flag == 0) ≡ false
    → not (append_all c b n w).0 ≡ false
    → (append_all c b n w).1 ++ (pre ++ rest) ≡ w ++ (pre ++ (flagged flag c b ++ rest))
behind flag c b n w pre rest h p q e f =
    let f' : not (append_all c b (length b) w).0 ≡ false = rw q at f in
    rw (p, q) (moves flag c b w rest h e f')

stat-part : (s : Sending) → Sized s.p1b → (s.p1b.senddatapth == 0) ≡ true → Flag s (send_stat s)
unfolding send_stat Flag
stat-part s h z =
    let b = bytes_of s.p1b.statbuf in
    let off = flagged-off s.p1b.senddatapth cmd_datapth (c_str (bytes_of s.p1b.datapth)) z in
    if-cases (Flag s) (s.p1b.sendstat == 0) _ _ (λ e. (refl, h, λ o. (z, e)))
      (λ e.
        if-cases (Flag s) (not (append_all cmd_stat b s.p1b.slen s.writebuf).0) _ _
          (λ f. (refl, h, λ o. ground arith))
          (λ f.
            if-cases (Flag s) (is_null s.p1b.statbuf && not (s.p1b.slen == 0)) _ _
              (λ n. (refl, h, λ o. ground arith))
              (λ n. (
                behind s.p1b.sendstat cmd_stat b s.p1b.slen s.writebuf _ (pending_path s.p1b)
                    (omega arith) off h.slen_eq e f,
                record { cmd_pos = h.cmd_pos; slen_eq = h.slen_eq; plen_eq = h.plen_eq },
                λ o. (z, refl),
              ))))

last-moves :
    (flag c : ℕ) (b : Bytes) (n : ℕ) (w pre pre' : Bytes)
    → 0 < c
    → pre ≡ []
    → pre' ≡ []
    → n ≡ length b
    → (flag == 0) ≡ false
    → not (append_all c b n w).0 ≡ false
    → (append_all c b n w).1 ++ (pre ++ (pre' ++ [])) ≡ w ++ (pre ++ (pre' ++ flagged flag c b))
last-moves flag c b n w pre pre' h p p' q e f =
    let f' : not (append_all c b (length b) w).0 ≡ false = rw q at f in
    rw (p, p', q) (moves flag c b w [] h e f' ∙ ap (λ t. w ++ t) (append-nil (flagged flag c b)))

path-part :
    (s : Sending)
    → Sized s.p1b
    → (s.p1b.senddatapth == 0) ≡ true
    → (s.p1b.sendstat == 0) ≡ true
    → total (send_path s).1 ≡ total s
unfolding send_path
path-part s h z y =
    let b = bytes_of s.p1b.path in
    let off = flagged-off s.p1b.senddatapth cmd_datapth (c_str (bytes_of s.p1b.datapth)) z in
    let off' = flagged-off s.p1b.sendstat cmd_stat (bytes_of s.p1b.statbuf) y in
    let Same : Ret × Sending → Type 0 = λ r. total r.1 ≡ total s in
    if-cases Same (s.p1b.sendpath == 0) _ _ (λ e. refl)
      (λ e.
        if-cases Same (not (append_all s.p1b.cmd b s.p1b.plen s.writebuf).0) _ _ (λ f. refl)
          (λ f.
            if-cases Same (is_null s.p1b.path) _ _ (λ n. refl)
              (λ n.
                last-moves s.p1b.sendpath s.p1b.cmd b s.p1b.plen s.writebuf _ _ h.cmd_pos off off'
                  h.plen_eq e f)))

-- Where the lengths that the entry holds are those of its strings and its command is not NUL, a
-- call of the first part of `do_stuff_to_send` leaves the write buffer, followed by the frames of
-- what is still flagged (data path, stat data, path), as it was: each flagged part is appended
-- once and in order, or stays flagged when there is no space or its string is a null pointer (the
-- fault at which the program ends).
pub send_flagged-total : (s : Sending) → Sized s.p1b → total (send_flagged s).1 ≡ total s
unfolding send_flagged Datapth Flag
send_flagged-total s h =
    let Same : Ret × Sending → Type 0 = λ r. total r.1 ≡ total s in
    let s1 = (send_datapth s).1 in
    let (same1, sized1, off1) = Datapth-part s h in
    if-cases Same (is_done (send_datapth s).0) _ _
      (λ e.
        let s2 = (send_stat s1).1 in
        let (same2, sized2, off2) = stat-part s1 sized1 (off1 e) in
        if-cases Same (is_done (send_stat s1).0) _ _
          (λ f. path-part s2 sized2 (off2 f).0 (off2 f).1 ∙ same2 ∙ same1) (λ f. same2 ∙ same1))
      (λ e. same1)
