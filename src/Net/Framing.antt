-- ===== src/Net/Framing.antt =====
-- `async_append_all_to_write_buffer` and `parse_readbuf` of src/asyncio.c on single messages.
use mathlib.Core.List.{append_assoc}
use burp.Prelude.{
  ℕ, ◌+◌, ◌-◌, ◌%◌, ◌≤◌, ◌<◌, ◌≡◌, ◌≢◌, refl, ◌∙◌, sym, ap, Bool, true, false, none, some, ◌∷◌,
  ◌++◌, leb, length, take, drop, length-append, take-length-append, drop-length-append,
  length-take-le, length-take_list, arith, if-cases,
}
use burp.Prelude.Chars.{Bytes, c_str, length-c_str_le}
use burp.Hex.{uint_mod, print_04x, scan_head}
use burp.Hex.RoundTrip.{length-print_04x, scan-print, header-string}
use burp.Msg.RoundTrip.{take-length}
use burp.Msg.{done}
use burp.Net.{bufmaxsize, take_message, parse_readbuf, append_all}

-- A message as it goes over the network: no newline follows it.
abbrev pub net_frame : ℕ → Bytes → Bytes
net_frame cmd buf = (cmd ∷ print_04x (length buf)) ++ buf

pub length-net_frame :
    (cmd : ℕ) (buf : Bytes) → length buf < 65536 → length (net_frame cmd buf) ≡ length buf + 5
length-net_frame cmd buf h =
    omega (arith, length-append (cmd ∷ print_04x (length buf)) buf, length-print_04x (length buf) h)

pub parse-known :
    (buf : Bytes) (c s : ℕ)
    → 5 ≤ length buf
    → scan_head buf ≡ some (c, s)
    → parse_readbuf buf ≡ take_message c s buf
unfolding parse_readbuf
parse-known buf c s h e = let l : leb 5 (length buf) ≡ true = ground arith in rw (l, e) refl

take_message-whole :
    (c s : ℕ) (buf : Bytes)
    → s < 65536
    → s + 5 ≤ length buf
    → take_message c s buf ≡ (done, some (c, take s (drop 5 buf)), drop (s + 5) buf)
unfolding take_message
take_message-whole c s buf h l =
    let m : (s + 5) % uint_mod ≡ s + 5 = omega arith in
    let t : leb (s + 5) (length buf) ≡ true = ground arith in rw m (rw t refl)

pub take_message-part :
    (c s : ℕ) (buf : Bytes)
    → s < 65536
    → length buf < s + 5
    → take_message c s buf ≡ (done, none, buf)
unfolding take_message
take_message-part c s buf h l =
    let m : (s + 5) % uint_mod ≡ s + 5 = omega arith in
    let t : leb (s + 5) (length buf) ≡ false = ground arith in rw m (rw t refl)

module _ (cmd : ℕ) (buf rest : Bytes) (h : 0 < cmd) (n : length buf < 65536) where
  header-split : net_frame cmd buf ++ rest ≡ (cmd ∷ print_04x (length buf)) ++ (buf ++ rest)
  header-split = append_assoc (cmd ∷ print_04x (length buf)) buf rest

  scanned : scan_head (net_frame cmd buf ++ rest) ≡ some (cmd, length buf)
  scanned = rw header-split (scan-print cmd (length buf) (buf ++ rest) h n)

  body : take (length buf) (drop 5 (net_frame cmd buf ++ rest)) ≡ buf
  body =
      let e : 5 ≡ length (cmd ∷ print_04x (length buf)) =
        omega (arith, length-print_04x (length buf) n) in
      rw header-split (
        rw e (
          rw (drop-length-append (cmd ∷ print_04x (length buf)) (buf ++ rest))
            (take-length-append buf rest)))

  behind : drop (length buf + 5) (net_frame cmd buf ++ rest) ≡ rest
  behind =
      let e = length-net_frame cmd buf n in
      ap (λ k. drop k (net_frame cmd buf ++ rest)) (sym e)
      ∙ drop-length-append (net_frame cmd buf) rest

  -- `parse_readbuf` on a buffer that begins with the frame of a message, of a command that is not
  -- NUL and less than 65536 bytes, takes exactly that message and leaves what follows it in the
  -- buffer.
  pub parse-net_frame : parse_readbuf (net_frame cmd buf ++ rest) ≡ (done, some (cmd, buf), rest)
  parse-net_frame =
      let l = length-append (net_frame cmd buf) rest in
      let m = length-net_frame cmd buf n in
      parse-known (net_frame cmd buf ++ rest) cmd (length buf) (omega arith) scanned
      ∙ take_message-whole cmd (length buf) (net_frame cmd buf ++ rest) n (omega arith)
      ∙ (rw body (rw behind refl))

-- With space for it, a message is appended whole.
pub append-net_frame :
    (cmd : ℕ) (buf writebuf : Bytes)
    → 0 < cmd
    → length writebuf + 6 + length buf < bufmaxsize - 1
    → append_all cmd buf (length buf) writebuf ≡ (true, writebuf ++ net_frame cmd buf)
unfolding append_all
append-net_frame cmd buf writebuf h l =
    let t : leb (bufmaxsize - 1) (length writebuf + 6 + length buf) ≡ false = ground arith in
    rw t (rw (header-string cmd (length buf) h (omega arith)) (rw (take-length buf) refl))

-- If the write buffer has space for a NUL behind it, it still has after
-- `async_append_all_to_write_buffer`, whatever the message and its length.
pub append-bound :
    (cmd : ℕ) (buf : Bytes) (wlen : ℕ) (writebuf : Bytes)
    → length writebuf < bufmaxsize
    → length (append_all cmd buf wlen writebuf).1 < bufmaxsize
unfolding append_all
append-bound cmd buf wlen writebuf h =
    if-cases (λ (r : Bool × Bytes). length r.1 < bufmaxsize)
      (leb (bufmaxsize - 1) (length writebuf + 6 + wlen)) _ _ (λ e. h)
      (λ e.
        let small : length writebuf + 6 + wlen < bufmaxsize - 1 = ground arith in
        let header = c_str (take 9 (cmd ∷ print_04x wlen)) in
        let a = length-append writebuf (header ++ take wlen buf) in
        let b = length-append header (take wlen buf) in
        let c = length-take-le wlen buf in
        let d = length-c_str_le (take 9 (cmd ∷ print_04x wlen)) in
        let f : length (take 9 (cmd ∷ print_04x wlen)) ≤ 5 =
          omega (arith, length-take_list 8 (print_04x wlen), length-print_04x wlen (omega arith)) in
        omega arith)

-- Without space nothing is appended.
pub append-full :
    (cmd : ℕ) (buf w w' : Bytes)
    → leb (bufmaxsize - 1) (length w + 6 + length buf) ≡ true
    → append_all cmd buf (length buf) w ≢ (true, w')
unfolding append_all
append-full cmd buf w w' f e = ground arith

-- Fewer bytes than a header are left alone.
pub parse-few : (buf : Bytes) → leb 5 (length buf) ≡ false → parse_readbuf buf ≡ (done, none, buf)
unfolding parse_readbuf
parse-few buf f = rw f refl
