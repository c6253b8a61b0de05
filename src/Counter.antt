-- ===== src/Counter.antt =====
-- src/counter.c and src/counter.h: the counters of a backup. The four fields of `struct cntr` for
-- one kind of entry (`file`, `file_same`, `file_changed`, `file_deleted`) are a `Tally`. All are
-- `unsigned long long`. What the functions print is not modelled.
pub mod Totals
use burp.Prelude.{ℕ, ◌+◌, ◌%◌, ◌^◌, Bool, Option, none, some, ◌==◌, if◌then◌else◌}
use burp.Cmd.{
  cmd_file, cmd_enc_file, cmd_metadata, cmd_enc_metadata, cmd_directory, cmd_hard_link,
  cmd_soft_link, cmd_special, cmd_efs_file, cmd_vss, cmd_enc_vss, cmd_vss_t, cmd_enc_vss_t,
  cmd_warning, cmd_error, cmd_file_changed,
}

abbrev pub ull_mod : ℕ
ull_mod = 2 ^ 64

-- `fresh` is the field with no suffix.
pub record Tally : Type 0 where
  pub fresh : ℕ
  pub same : ℕ
  pub changed : ℕ
  pub deleted : ℕ

pub record Cntr : Type 0 where
  pub gtotal : Tally
  pub total : Tally
  pub file : Tally
  pub enc : Tally
  pub meta : Tally
  pub encmeta : Tally
  pub dir : Tally
  pub slink : Tally
  pub hlink : Tally
  pub special : Tally
  pub efs : Tally
  pub vss : Tally
  pub encvss : Tally
  pub vss_t : Tally
  pub encvss_t : Tally
  pub warning : ℕ
  pub byte : ℕ
  pub recvbyte : ℕ
  pub sentbyte : ℕ
  pub start : ℕ

abbrev pub zero_tally : Tally
zero_tally = record { fresh = 0; same = 0; changed = 0; deleted = 0 }

-- A null pointer is none, and nothing is done for it.
abbrev on_counter : (Cntr → Cntr) → Option Cntr → Option Cntr
on_counter f none = none
on_counter f (some c) = some (f c)

unfoldable pub reset_filecounter : ℕ → Option Cntr → Option Cntr
reset_filecounter t = on_counter λ c. record {
  gtotal = zero_tally;
  total = zero_tally;
  file = zero_tally;
  enc = zero_tally;
  meta = zero_tally;
  encmeta = zero_tally;
  dir = zero_tally;
  slink = zero_tally;
  hlink = zero_tally;
  special = zero_tally;
  efs = zero_tally;
  vss = zero_tally;
  encvss = zero_tally;
  vss_t = zero_tally;
  encvss_t = zero_tally;
  warning = 0;
  byte = 0;
  recvbyte = 0;
  sentbyte = 0;
  start = t;
}

abbrev inc : ℕ → ℕ
inc n = (n + 1) % ull_mod

abbrev inc_fresh : Tally → Tally
inc_fresh t = record t { fresh = inc t.fresh }

abbrev inc_same : Tally → Tally
inc_same t = record t { same = inc t.same }

abbrev inc_changed : Tally → Tally
inc_changed t = record t { changed = inc t.changed }

abbrev inc_deleted : Tally → Tally
inc_deleted t = record t { deleted = inc t.deleted }

-- The cases that the four switches share: the field of the kind and the total.
pub count_kind : (Tally → Tally) → ℕ → Cntr → Cntr
count_kind f ch c =
    if ch == cmd_file
    then record c { file = f c.file; total = f c.total }
    else if ch == cmd_enc_file
    then record c { enc = f c.enc; total = f c.total }
    else if ch == cmd_metadata
    then record c { meta = f c.meta; total = f c.total }
    else if ch == cmd_enc_metadata
    then record c { encmeta = f c.encmeta; total = f c.total }
    else if ch == cmd_directory
    then record c { dir = f c.dir; total = f c.total }
    else if ch == cmd_hard_link
    then record c { hlink = f c.hlink; total = f c.total }
    else if ch == cmd_soft_link
    then record c { slink = f c.slink; total = f c.total }
    else if ch == cmd_special
    then record c { special = f c.special; total = f c.total }
    else if ch == cmd_efs_file
    then record c { efs = f c.efs; total = f c.total }
    else if ch == cmd_vss
    then record c { vss = f c.vss; total = f c.total }
    else if ch == cmd_enc_vss
    then record c { encvss = f c.encvss; total = f c.total }
    else if ch == cmd_vss_t
    then record c { vss_t = f c.vss_t; total = f c.total }
    else if ch == cmd_enc_vss_t
    then record c { encvss_t = f c.encvss_t; total = f c.total }
    else c

abbrev all_totals : (Tally → Tally) → Cntr → Cntr
all_totals f c = record c { gtotal = f c.gtotal }

unfoldable pub filecounter : ℕ → Cntr → Cntr
unfolding count_kind
filecounter ch c =
    if ch == cmd_warning
    then record c { warning = inc c.warning }
    else if ch == cmd_error
    then c
    else if ch == cmd_file_changed
    then record c {
      file = inc_changed c.file;
      total = inc_changed c.total;
      gtotal = inc_fresh (inc_changed c.gtotal);
    }
    else all_totals inc_fresh (count_kind inc_fresh ch c)

unfoldable pub do_filecounter : ℕ → Option Cntr → Option Cntr
do_filecounter ch = on_counter (filecounter ch)

unfoldable pub filecounter_same : ℕ → Cntr → Cntr
unfolding count_kind
filecounter_same ch c = all_totals inc_same (count_kind inc_same ch c)

unfoldable pub do_filecounter_same : ℕ → Option Cntr → Option Cntr
do_filecounter_same ch = on_counter (filecounter_same ch)

unfoldable pub filecounter_changed : ℕ → Cntr → Cntr
unfolding count_kind
filecounter_changed ch c = all_totals inc_changed (
    if ch == cmd_file_changed
    then record c { file = inc_changed c.file; total = inc_changed c.total }
    else count_kind inc_changed ch c)

unfoldable pub do_filecounter_changed : ℕ → Option Cntr → Option Cntr
do_filecounter_changed ch = on_counter (filecounter_changed ch)

unfoldable pub filecounter_deleted : ℕ → Cntr → Cntr
unfolding count_kind
filecounter_deleted ch c = all_totals inc_deleted (count_kind inc_deleted ch c)

unfoldable pub do_filecounter_deleted : ℕ → Option Cntr → Option Cntr
do_filecounter_deleted ch = on_counter (filecounter_deleted ch)

unfoldable pub do_filecounter_bytes : ℕ → Option Cntr → Option Cntr
do_filecounter_bytes bytes = on_counter λ c. record c { byte = (c.byte + bytes) % ull_mod }

unfoldable pub do_filecounter_sentbytes : ℕ → Option Cntr → Option Cntr
do_filecounter_sentbytes bytes =
    on_counter λ c. record c { sentbyte = (c.sentbyte + bytes) % ull_mod }

unfoldable pub do_filecounter_recvbytes : ℕ → Option Cntr → Option Cntr
do_filecounter_recvbytes bytes =
    on_counter λ c. record c { recvbyte = (c.recvbyte + bytes) % ull_mod }
