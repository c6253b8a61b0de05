-- ===== src/Msg.antt =====
-- Messages in files: `send_msg_fp` and `send_msg_zp` of src/msg.c, `async_read_fp_msg` and
-- `async_read_fp` of src/asyncio.c. A plain file and a compressed one are read and written alike,
-- since zlib is transparent.
pub mod RoundTrip
use burp.Prelude.{
  ℕ, zero, suc, ◌+◌, ◌-◌, Bool, true, false, not, ◌&&◌, Option, none, some, List, [], ◌∷◌, ◌++◌,
  leb, ◌==◌, if◌then◌else◌, length, take, drop,
}
use burp.Prelude.Chars.{Bytes}
use burp.Hex.{print_04x, scan_head}

-- The ints that the functions return: 0, 1 for the end of the data, and -1. `fault` stands for a
-- read outside an array, where C leaves the behaviour undefined.
pub data Ret : Type 0 where
  done ended failed fault : Ret

abbrev pub is_done : Ret → Bool
is_done done = true
is_done _ = false

-- A file open for reading. Where `unread` ends, there is the end of the file or a read error.
pub record Stream : Type 0 where
  pub unread : Bytes
  pub broken : Bool

-- A file open for writing, on a device with room for so many bytes more.
pub record Sink : Type 0 where
  pub written : Bytes
  pub room : ℕ

-- One write, complete or cut short.
pub put : Bytes → Sink → Bool × Sink
put bs k =
    if leb (length bs) k.room
    then (true, record { written = k.written ++ bs; room = k.room - length bs })
    else (false, record { written = k.written ++ take k.room bs; room = 0 })

-- The second and third operand of the test in `send_msg_fp`.
put_body : Bytes → Bool × Sink → Ret × Sink
unfolding put
put_body bs (false, k) = (failed, k)
put_body bs (true, k) =
    let (wrote, k') = put bs k in
    if not wrote
    then (failed, k')
    else let (ended_line, k'') = put (b'\n' ∷ []) k' in (if ended_line then done else failed, k'')

-- `s` is the length of the data in `buf`.
unfoldable pub send_msg : ℕ → Bytes → ℕ → Sink → Ret × Sink
unfolding put put_body
send_msg cmd buf s k =
    let header = cmd ∷ print_04x s in
    let (wrote, k') = put header k in put_body (take s buf) (wrote && length header == 5, k')

-- The loop of `async_read_fp_msg`: `len` bytes are still to come, behind those of `acc`. A read
-- takes at least one byte, so a round for each byte is enough.
read_loop : ℕ → ℕ → Bytes → Stream → Ret × Option Bytes × Stream
read_loop zero len acc st = (failed, none, st)
read_loop (suc f) len acc st =
    let got = take len st.unread in
    let rest =
      read_loop f (len - length got) (acc ++ got)
        (record st { unread = drop (length got) st.unread }) in
    if len == 0
    then (done, some acc, st)
    else if length got == 0
    then (if st.broken then failed else ended, none, st)
    else rest

unfoldable pub read_msg : ℕ → Stream → Ret × Option Bytes × Stream
unfolding read_loop
read_msg len st = read_loop (len + 1) len [] st

-- What the pointers `cmd`, `rdst` and `rlen` point to.
pub record Msg : Type 0 where
  pub cmd : ℕ
  pub buf : Option Bytes
  pub len : ℕ

-- `%c` stores its character also where `%04X` fails.
abbrev stored : Bytes → ℕ → ℕ
stored [] old = old
stored (c ∷ s) old = if c == 0 then old else c

-- The body of a message and its newline, which is dropped.
read_body : Msg → Ret × Option Bytes × Stream → Ret × Msg × Stream
read_body m (done, some b, st) = (done, record m { buf = some (take m.len b) }, st)
read_body m (done, none, st) = (done, record m { buf = none }, st)
read_body m (r, b, st) = (r, record m { buf = none }, st)

read_header : Msg → Ret × Option Bytes × Stream → Ret × Msg × Stream
unfolding read_body
read_header m (done, some tmp, st) = elim (scan_head tmp) [
  | none ↦ (failed, record m { cmd = stored tmp m.cmd }, st)
  | some (c, r) ↦ read_body (record m { cmd = c; len = r }) (read_msg (r + 1) st)
]
read_header m (done, none, st) = (failed, m, st)
read_header m (r, b, st) = (r, m, st)

unfoldable pub async_read_fp : Msg → Stream → Ret × Msg × Stream
unfolding read_header
async_read_fp m st = read_header m (read_msg 5 st)
