-- ===== src/Net.antt =====
-- src/asyncio.c: the read and the write buffer of a connection, and `async_rw`. What `select` and
-- the SSL library report is a parameter of each call. The rate limit, the estimate mode, and what
-- is logged are not modelled.
-- An error of `SSL_write`, at which the program exits, is a result of -1 here.
pub mod Framing
pub mod Link
use burp.Prelude.{
  ℕ, zero, suc, ◌+◌, ◌-◌, ◌*◌, ◌%◌, ◌^◌, Bool, true, false, not, ◌&&◌, ◌||◌, Option, none, some,
  List, [], ◌∷◌, ◌++◌, ltb, leb, ◌==◌, if◌then◌else◌, length, take, drop,
}
use burp.Prelude.Chars.{Bytes, c_str}
use burp.Hex.{uint_mod, print_04x, scan_head}
use burp.Msg.{Ret, done, failed, fault, is_done}

abbrev pub async_buf_len : ℕ
async_buf_len = 16000

-- `readbufmaxsize` and `writebufmaxsize`, the sizes of the two arrays.
abbrev pub bufmaxsize : ℕ
bufmaxsize = async_buf_len * 2 + 32

-- A message that was taken from the read buffer.
abbrev pub Received : Type 0
Received = Option (ℕ × Bytes)

-- The message that stands behind its length, `s`. `s+5` is an `unsigned int`; where it wraps, the
-- copy reads outside the buffer.
pub take_message : ℕ → ℕ → Bytes → Ret × Received × Bytes
take_message c s buf =
    if leb ((s + 5) % uint_mod) (length buf)
    then (if leb (s + 5) (length buf)
        then (done, some (c, take s (drop 5 buf)), drop (s + 5) buf)
        else (fault, none, buf))
    else (done, none, buf)

unfoldable pub parse_readbuf : Bytes → Ret × Received × Bytes
unfolding take_message
parse_readbuf buf =
    if leb 5 (length buf)
    then elim (scan_head buf) [ none ↦ (failed, none, []) | some (c, s) ↦ take_message c s buf ]
    else (done, none, buf)

-- `async_append_all_to_write_buffer`, and whether there was space: then nothing is left of the
-- message.
unfoldable pub append_all : ℕ → Bytes → ℕ → Bytes → Bool × Bytes
append_all wcmd wsrc wlen writebuf =
    if leb (bufmaxsize - 1) (length writebuf + 6 + wlen)
    then (false, writebuf)
    else (true, writebuf ++ (c_str (take 9 (wcmd ∷ print_04x wlen)) ++ take wlen wsrc))

pub record Conn : Type 0 where
  pub readbuf : Bytes
  pub writebuf : Bytes
  pub read_blocked_on_write : Bool
  pub write_blocked_on_read : Bool
  pub network_timeout : ℕ
  pub max_network_timeout : ℕ

-- What `SSL_read` and `SSL_write` report: the bytes or their number, to try again, to wait for the
-- other direction, the end of the data, or an error.
pub data Io (A : Type 0) : Type 0 where
  moved : A → Io A
  again crossed closed broken : Io A

-- The read asks for the space that is left, and writes a NUL behind what it got: outside the array
-- where that is full.
unfoldable pub do_read : Io Bytes → Conn → Ret × Conn
do_read (moved bs) c =
    let buf = c.readbuf ++ take (bufmaxsize - length c.readbuf) bs in
    (if ltb (length buf) bufmaxsize then done else fault, record c { readbuf = buf })
do_read again c = (done, c)
do_read crossed c = (done, record c { read_blocked_on_write = true })
do_read closed c = (failed, record c { readbuf = [] })
do_read broken c = (failed, record c { readbuf = [] })

unfoldable pub do_write : Io ℕ → Conn → Ret × Conn
do_write (moved n) c = (done, record c { writebuf = drop n c.writebuf })
do_write again c = (done, c)
do_write crossed c = (done, record c { write_blocked_on_read = true })
do_write closed c = (failed, c)
do_write broken c = (failed, c)

-- What `select` reports, the results of the two calls of the library, and `setsec || setusec`.
pub record Events : Type 0 where
  pub select_fails : Bool
  pub exception : Bool
  pub readable : Bool
  pub writable : Bool
  pub reads : Io Bytes
  pub writes : Io ℕ
  pub slow : Bool

-- The part of `async_rw` behind `select`.
unfoldable pub after_select : Bool → Bool → Events → Conn → Ret × Received × Conn
unfolding parse_readbuf do_read do_write
after_select doread dowrite ev c =
    let (r, c1) =
      do_read ev.reads
        (record c { read_blocked_on_write = false; network_timeout = c.max_network_timeout }) in
    let (p, got, buf) = parse_readbuf c1.readbuf in
    let (w, c2) =
      do_write ev.writes
        (record c { write_blocked_on_read = false; network_timeout = c.max_network_timeout }) in
    if ev.select_fails
    then (failed, none, c)
    else if not ev.exception && (not doread || not ev.readable) && (not dowrite || not ev.writable)
    then (if ev.slow && ltb 0 c.max_network_timeout
        then (if c.network_timeout == 0
            then (failed, none, c)
            else (done, none, record c { network_timeout = c.network_timeout - 1 }))
        else (done, none, c))
    else if ev.exception
    then (failed, none, record c { network_timeout = c.max_network_timeout })
    else if doread && ev.readable
    then (if not (is_done r) then (r, none, c1) else (p, got, record c1 { readbuf = buf }))
    else if dowrite && ev.writable
    then (w, none, c2)
    else (done, none, record c { network_timeout = c.max_network_timeout })

-- Append the message of `wlen` bytes, where there is one and space for it: what is left of it, and
-- the connection.
unfoldable pub start_write : ℕ → Bytes → ℕ → Conn → ℕ × Conn
unfolding append_all
start_write wcmd wsrc wlen c =
    let (fits, buf) = append_all wcmd wsrc wlen c.writebuf in
    if wlen == 0 then (0, c) else if fits then (0, record c { writebuf = buf }) else (wlen, c)

-- `async_rw`, where `rdst` is given (`doread`) and points to null: the result, the message, what is
-- left to be written, and the connection.
unfoldable pub async_rw : Bool → ℕ → Bytes → ℕ → Events → Conn → Ret × Received × ℕ × Conn
unfolding after_select
async_rw doread wcmd wsrc wlen ev c =
    let (left, c1) = start_write wcmd wsrc wlen c in
    let dowrite = ltb 0 (length c1.writebuf) && not c1.write_blocked_on_read in
    let (p, got, buf) = parse_readbuf c1.readbuf in
    let c2 = record c1 { readbuf = buf } in
    let doread' = doread && not c1.read_blocked_on_write in
    let c3 = if doread then c2 else c1 in
    let (r, got', c4) = after_select doread' dowrite ev c3 in
    if doread && not (is_done p)
    then (p, none, left, c2)
    else if doread && elim got [ none ↦ false | some m ↦ true ]
    then (done, got, left, c2)
    else if doread' || dowrite
    then (r, got', left, c4)
    else (done, none, left, c3)
