-- ===== src/Tests.antt =====
-- The theorems on concrete data: a directory and two files, as a client sends them.
mod Formats
mod Entries
mod Server
mod Disk
mod Resume
mod Rules
mod Restored
use burp.Prelude.{ℕ, ◌-◌, Option, none, some, List, [], ◌∷◌}
use burp.Prelude.Chars.{Bytes, codes}
use burp.Cmd.{cmd_file, cmd_directory, cmd_soft_link}
use burp.Stat.{Stat, Decoded, uint_mod}
use burp.Sbuf.Entry.{Entry}

abbrev pub dir_stat : Stat
dir_stat = record {
  dev = 64769;
  ino = 2;
  mode = 16877;
  nlink = 3;
  uid = 0;
  gid = 0;
  rdev = 0;
  size = 4096;
  blksize = 4096;
  blocks = 8;
  atime = 1400000000;
  mtime = 1400000001;
  ctime = 1400000002;
}

-- The string that `encode_stat` makes of a simple `struct stat`.
abbrev pub small_statbuf : Bytes
small_statbuf = codes "B C D B A A A B B B C D E A A A"

abbrev pub small_decoded : Decoded
small_decoded = record {
  statp = record {
    dev = 1;
    ino = 2;
    mode = 3;
    nlink = 1;
    uid = 0;
    gid = 0;
    rdev = 0;
    size = 1;
    blksize = 1;
    blocks = 1;
    atime = 2;
    mtime = 3;
    ctime = 4;
  };
  winattr = 0;
  compression = 0;
}

abbrev pub home : Entry
home = record {
  cmd = cmd_directory;
  datapth = none;
  statbuf = small_statbuf;
  decoded = small_decoded;
  path = codes "/home";
  linkto = none;
  endfile = none;
}

abbrev pub note : Entry
note = record {
  cmd = cmd_file;
  datapth = some (codes "0000/0000/0000");
  statbuf = small_statbuf;
  decoded = small_decoded;
  path = codes "/home/note";
  linkto = none;
  endfile = some (codes "1:0");
}

abbrev pub link : Entry
link = record {
  cmd = cmd_soft_link;
  datapth = none;
  statbuf = small_statbuf;
  decoded = small_decoded;
  path = codes "/tmp";
  linkto = some (codes "/var/tmp");
  endfile = none;
}
