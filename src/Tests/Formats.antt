-- ===== src/Tests/Formats.antt =====
-- The encodings: numbers, stat data, messages, paths.
use burp.Prelude.{
  ◌-◌, ◌%◌, ◌^◌, ◌≤◌, ◌≡◌, refl, true, false, ltb, ◌||◌, ◌⊎◌, if◌then◌else◌, none, some, ◌++◌, map,
  arith, length,
}
use burp.Prelude.Chars.{codes}
use burp.Cmd.{cmd_gen, cmd_file}
use burp.Base64.{int64_mod, to_base64, from_base64}
use burp.Base64.RoundTrip.{from-to_base64, to_base64_le}
use burp.Stat.{encode_stat, decode_stat}
use burp.Stat.RoundTrip.{IsStat, decode-encode_stat}
use burp.Msg.{done, Msg, async_read_fp}
use burp.Msg.RoundTrip.{frame, async_read_fp-frame}
use burp.Path.{pathcmp_str, is_subdir}
use burp.Path.Order.{rank, lex, pathcmp-lex}
use burp.Path.Subdir.{depth, slashes, ends_in_slash, strip_prefix, is_subdir-depth}
use burp.Dpth.{Dpth, incr_dpth, mk_dpth, set_dpth_from_string}
use burp.Dpth.Order.{Steps, Wraps, incr-Steps}
use burp.Dpth.Scan.{set-mk_dpth}
use burp.Tests.{dir_stat}

from-to_base64_example :
    from_base64 ((to_base64 (int64_mod - 5)).1 ++ codes " B")
    ≡ some ((int64_mod - 5) % int64_mod, codes " B")
from-to_base64_example = from-to_base64 (int64_mod - 5) (codes " B") refl

to_base64_le_example : length (to_base64 (2 ^ 63)).1 ≤ 12
to_base64_le_example = to_base64_le (2 ^ 63)

dir_stat-IsStat : IsStat dir_stat
dir_stat-IsStat = record {
  dev_lt = omega arith;
  ino_lt = omega arith;
  mode_lt = omega arith;
  nlink_lt = omega arith;
  uid_lt = omega arith;
  gid_lt = omega arith;
  rdev_lt = omega arith;
  size_lt = omega arith;
  blksize_lt = omega arith;
  blocks_lt = omega arith;
  atime_lt = omega arith;
  mtime_lt = omega arith;
  ctime_lt = omega arith;
}

decode-encode_stat_example :
    decode_stat (encode_stat dir_stat 0 9) 0 7
    ≡ some (record { statp = dir_stat; winattr = 0; compression = 9 })
decode-encode_stat_example = decode-encode_stat dir_stat 0 9 0 7 dir_stat-IsStat (omega arith)

abbrev no_msg : Msg
no_msg = record { cmd = 0; buf = none; len = 0 }

async_read_fp-frame_example :
    async_read_fp no_msg
      (record { unread = frame cmd_gen (codes "ok") ++ codes "rest"; broken = false })
    ≡ (
      done,
      record { cmd = cmd_gen; buf = some (codes "ok"); len = 2 },
      record { unread = codes "rest"; broken = false },
    )
async_read_fp-frame_example =
    async_read_fp-frame no_msg cmd_gen (codes "ok") (codes "rest") false (omega arith) (omega arith)

pathcmp-lex_example :
    pathcmp_str (codes "/a/b") (codes "/a-b")
    ≡ lex (map rank (codes "/a/b")) (map rank (codes "/a-b"))
pathcmp-lex_example = pathcmp-lex (codes "/a/b") (codes "/a-b") (ground arith) (ground arith)

is_subdir-depth_example :
    is_subdir (some (codes "/home")) (some (codes "/home/x"))
    ≡ depth
        (slashes (codes "/home"))
        (ends_in_slash false (codes "/home"))
        (strip_prefix (codes "/home") (codes "/home/x"))
is_subdir-depth_example = is_subdir-depth (codes "/home") (codes "/home/x")

abbrev last_tert : Dpth
last_tert = record { prim = 0; seco = 3; tert = 65535; looped = 0 }

incr-Steps_example :
    Steps 30000 last_tert (incr_dpth 30000 last_tert)
    ⊎ Wraps 30000 last_tert (incr_dpth 30000 last_tert)
incr-Steps_example =
    incr-Steps 30000 last_tert
      (record { prim_le = omega arith; seco_le = omega arith; tert_le = omega arith })

abbrev later : Dpth
later = record { prim = 1; seco = 0; tert = 7; looped = 0 }

set-mk_dpth_example : set_dpth_from_string last_tert (some (mk_dpth true cmd_file later)) ≡ (
  true,
  if ltb 1 0 || ltb 0 3 || ltb 7 65535
      then last_tert
      else record last_tert { prim = 1; seco = 0; tert = 7 },
)
set-mk_dpth_example =
    set-mk_dpth true cmd_file last_tert later (omega arith, omega arith, omega arith)
