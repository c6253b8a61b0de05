-- ===== src/Msg/RoundTrip.antt =====
-- `send_msg_fp` of src/msg.c and `async_read_fp` of src/asyncio.c together.
use mathlib.Core.List.{append_assoc, append-nil}
use burp.Prelude.{
  ℕ, zero, suc, ◌+◌, ◌-◌, ◌≤◌, ◌<◌, ◌≡◌, refl, ap, Bool, true, false, none, some, [], ◌∷◌, ◌++◌,
  arith, if◌then◌else◌, length, take, drop, length-append, take-length-append, drop-length-append,
}
use burp.Prelude.Chars.{Bytes}
use burp.Hex.{print_04x, scan_head}
use burp.Hex.RoundTrip.{length-print_04x, scan-print}
use burp.Msg.{
  Ret, done, ended, failed, Sink, send_msg, read_loop, read_msg, Msg, read_header, async_read_fp,
}

-- A message as it stands in a file.
abbrev pub frame : ℕ → Bytes → Bytes
frame cmd buf = cmd ∷ (print_04x (length buf) ++ (buf ++ b'\n' ∷ []))

pub take-length : (xs : Bytes) → take (length xs) xs ≡ xs
take-length [] = refl
take-length (x ∷ xs) = ap (◌∷◌ x) (take-length xs)

-- With room for it on the device, sending a message of less than 65536 bytes writes its frame (the
-- command, four hexadecimal digits of the length, the data and a newline) behind what was there,
-- and returns 0.
pub send_msg-frame :
    (cmd : ℕ) (buf : Bytes) (k : Sink)
    → length buf < 65536
    → length buf + 6 ≤ k.room
    → send_msg cmd buf (length buf) k
      ≡ (done, record { written = k.written ++ frame cmd buf; room = k.room - (length buf + 6) })
unfolding send_msg
send_msg-frame cmd buf k h r =
    let n = length-print_04x (length buf) h in
    rw take-length (
      ground (
        arith,
        n,
        append_assoc (k.written ++ cmd ∷ print_04x (length buf)) buf (b'\n' ∷ []),
        append_assoc k.written (cmd ∷ print_04x (length buf)) (buf ++ b'\n' ∷ []),
      ))

-- A message of more than 0xFFFF bytes is refused.
pub send_msg_long :
    (cmd : ℕ) (buf : Bytes) (k : Sink)
    → 5 < length (cmd ∷ print_04x (length buf))
    → (send_msg cmd buf (length buf) k).0 ≡ failed
unfolding send_msg
send_msg_long cmd buf k h = ground arith

-- One read takes all that is wanted, where it is there.
read_loop-all :
    (f : ℕ) (xs acc rest : Bytes) (b : Bool)
    → read_loop (suc (suc f)) (length xs) acc (record { unread = xs ++ rest; broken = b })
      ≡ (done, some (acc ++ xs), record { unread = rest; broken = b })
unfolding read_loop
read_loop-all f [] acc rest b = ground (arith, append-nil acc)
read_loop-all f (x ∷ xs) acc rest b =
    ground (arith, take-length-append xs rest, drop-length-append xs rest)

pub read_msg-all :
    (xs rest : Bytes) (b : Bool)
    → read_msg (length xs) (record { unread = xs ++ rest; broken = b })
      ≡ (done, some xs, record { unread = rest; broken = b })
unfolding read_msg
read_msg-all [] rest b = unfold read_loop in refl
read_msg-all (x ∷ xs) rest b =
    let e : suc (length xs) + 1 ≡ suc (suc (length xs)) = omega arith in
    rw e (read_loop-all (length xs) (x ∷ xs) [] rest b)

-- A short file: all of it is taken, and the next read finds the end.
take-all : (n : ℕ) (xs : Bytes) → length xs ≤ n → take n xs ≡ xs
take-all zero [] h = refl
take-all zero (x ∷ xs) h = absurd (omega arith)
take-all (suc n) [] h = refl
take-all (suc n) (x ∷ xs) h = ap (◌∷◌ x) (take-all n xs (omega arith))

drop-length : (xs : Bytes) → drop (length xs) xs ≡ []
drop-length [] = refl
drop-length (x ∷ xs) = drop-length xs

abbrev pub short_read : Bool → Ret
short_read broken = if broken then failed else ended

read_loop-end :
    (f len : ℕ) (acc : Bytes) (b : Bool)
    → 0 < len
    → read_loop (suc f) len acc (record { unread = []; broken = b })
      ≡ (short_read b, none, record { unread = []; broken = b })
unfolding read_loop
read_loop-end f zero acc b h = absurd (omega arith)
read_loop-end f (suc len) acc b h = ground arith

read_loop-short :
    (f len : ℕ) (xs : Bytes) (b : Bool)
    → length xs < len
    → read_loop (suc (suc f)) len [] (record { unread = xs; broken = b })
      ≡ (short_read b, none, record { unread = []; broken = b })
unfolding read_loop
read_loop-short f len [] b h = read_loop-end (suc f) len [] b (omega arith)
read_loop-short f len (x ∷ xs) b h = ground (
  arith,
  take-all len (x ∷ xs),
  drop-length (x ∷ xs),
  read_loop-end f (len - length (x ∷ xs)) (x ∷ xs) b,
)

pub read_msg-short :
    (len : ℕ) (xs : Bytes) (b : Bool)
    → length xs < len
    → read_msg len (record { unread = xs; broken = b })
      ≡ (short_read b, none, record { unread = []; broken = b })
unfolding read_msg
read_msg-short zero xs b h = absurd (omega arith)
read_msg-short (suc len) xs b h =
    let e : suc len + 1 ≡ suc (suc len) = omega arith in rw e (read_loop-short len (suc len) xs b h)

-- The header and the body of a frame, as the two reads take them.
frame-split :
    (cmd : ℕ) (buf rest : Bytes)
    → frame cmd buf ++ rest ≡ (cmd ∷ print_04x (length buf)) ++ ((buf ++ b'\n' ∷ []) ++ rest)
frame-split cmd buf rest = append_assoc (cmd ∷ print_04x (length buf)) (buf ++ b'\n' ∷ []) rest

read_header-frame :
    (m : Msg) (cmd : ℕ) (buf rest : Bytes) (b : Bool)
    → 0 < cmd
    → length buf < 65536
    → read_header m (
      done,
      some (cmd ∷ print_04x (length buf)),
      record { unread = (buf ++ b'\n' ∷ []) ++ rest; broken = b },
    )
      ≡ (
        done,
        record { cmd = cmd; buf = some buf; len = length buf },
        record { unread = rest; broken = b },
      )
unfolding read_header
read_header-frame m cmd buf rest b h n =
    let scanned : scan_head (cmd ∷ print_04x (length buf)) ≡ some (cmd, length buf) =
      rw append-nil at (scan-print cmd (length buf) [] h n) in
    let e : length buf + 1 ≡ length (buf ++ b'\n' ∷ []) =
      omega (arith, length-append buf (b'\n' ∷ [])) in
    rw (scanned, read_header)
      (rw e (
        rw (read_msg-all (buf ++ b'\n' ∷ []) rest b)
          (rw (take-length-append buf (b'\n' ∷ [])) refl)))

-- `async_read_fp` on a file that begins with the frame of a message, of a command that is not NUL
-- and less than 65536 bytes, gives its command, data and length, and leaves the file at what
-- follows it.
pub async_read_fp-frame :
    (m : Msg) (cmd : ℕ) (buf rest : Bytes) (b : Bool)
    → 0 < cmd
    → length buf < 65536
    → async_read_fp m (record { unread = frame cmd buf ++ rest; broken = b }) ≡ (
      done,
      record { cmd = cmd; buf = some buf; len = length buf },
      record { unread = rest; broken = b },
    )
unfolding async_read_fp
async_read_fp-frame m cmd buf rest b h n =
    let e : 5 ≡ length (cmd ∷ print_04x (length buf)) =
      omega (arith, length-print_04x (length buf) n) in
    rw frame-split (
      rw e (
        rw (read_msg-all (cmd ∷ print_04x (length buf)) ((buf ++ b'\n' ∷ []) ++ rest) b)
          (read_header-frame m cmd buf rest b h n)))

-- At the end of a file `async_read_fp` returns 1, or -1 after a read error, and stores nothing.
pub async_read_fp-end :
    (m : Msg) (b : Bool)
    → async_read_fp m (record { unread = []; broken = b })
      ≡ (short_read b, m, record { unread = []; broken = b })
unfolding async_read_fp read_header
async_read_fp-end m true = rw (read_msg-short 5 [] true (omega arith)) refl
async_read_fp-end m false = rw (read_msg-short 5 [] false (omega arith)) refl

-- A file that ends in the five bytes of the header.
pub async_read_fp-short :
    (m : Msg) (bs : Bytes) (b : Bool)
    → length bs < 5
    → async_read_fp m (record { unread = bs; broken = b })
      ≡ (short_read b, m, record { unread = []; broken = b })
unfolding async_read_fp read_header
async_read_fp-short m bs true h = rw (read_msg-short 5 bs true h) refl
async_read_fp-short m bs false h = rw (read_msg-short 5 bs false h) refl
