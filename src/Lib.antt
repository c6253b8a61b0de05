-- ===== src/Lib.antt =====
-- The server side of burp, a network backup program: the formats in which a client and the server
-- exchange the entries of a backup, the files that hold them, and how the server decides what is
-- kept. The paths below are from the root of the repository.
--
-- Formats. Base64 models src/base64.c and Stat the encoding of `struct stat` in src/attribs.c (as
-- built on Linux). Hex has the conversions of the C library that the formats use (`%04X` and its
-- scan), Strtoul its decimal scan. Msg has the messages in files: `send_msg_fp` and `send_msg_zp`
-- of src/msg.c, `async_read_fp` of src/asyncio.c; a plain and a compressed file are alike. Net has
-- the buffers of a connection, `parse_readbuf`, `async_append_all_to_write_buffer` and `async_rw`
-- of src/asyncio.c; what `select` and the SSL library report are parameters. Cmd has the constants
-- of src/cmd.h.
--
-- Entries. Sbuf models src/sbuf.h and src/sbuf.c with `async_read_stat` of src/asyncio.c:
-- Sbuf.Fill reads an entry from a file or the network, Sbuf.Manifest writes it, Sbuf.Compare
-- orders entries. Sbuf.Entry has the entries as data, and the bytes that stand for them. Path has
-- `pathcmp` and `is_subdir` of src/conf.c, Prepend src/prepend.c, Counter src/counter.c.
--
-- The server. Phase1 has src/backup_phase1_server.c, the list that the client sends, and where a
-- resumed backup begins: Phase1.Sources are the lists as files, Phase1.Forward has what the search
-- for a place finds, Phase1.Resume where `do_resume` leaves the files. Phase2 has the decisions of
-- src/backup_phase2_server.c about an entry that the client has: unchanged, to be sent whole, or
-- to be sent as a delta; Phase2.Send has `do_stuff_to_send` and Phase2.Receive
-- `do_stuff_to_receive` of the same file; Phase2.Rounds has the loop of `backup_phase2_server`, a
-- round for each answer from outside, and Phase2.Rounds.Placed where the search in the old
-- manifest ends, Phase2.Rounds.Left what it leaves, Phase2.Rounds.Steps what holds over many
-- rounds. Phase3 has src/backup_phase3_server.c, which merges the unchanged entries and those of
-- phase 2 into the new manifest: Phase3.Merge says what the merge is, Phase3.Load and Phase3.Run
-- what the loop does. Phase4 has src/backup_phase4_server.c: Phase4.Jiggle puts one data file in
-- place, with each write to the disk as a state, so that Phase4.Jiggle.Safe and
-- Phase4.Jiggle.Recovers can say what a power cut leaves; Phase4.Deletions takes entries out of
-- the manifest. Dpth has src/dpth.c, the names of the data files. Backups has the removal of old
-- backups of src/current_backups_server.c, and Backups.Listing the list of backups;
-- Backups.Removal has what a pass does to an array, and Backups.Listing.Safe what follows for a
-- directory; Backups.Tree has the deletion and the duplication of a directory.
--
-- Restore has `restore_file` of src/restore_server.c: Restore.Version says which version of a file
-- the backups hold, Restore.Down what the way through the deltas does, Restore.Sends what the
-- client is sent.
--
-- The client. Find has the include and exclude rules of src/find.c: Find.Extension is about the
-- lists of extensions, Find.Included about the decision on a file.
--
-- In Phase4.Jiggle a write to a file is three states, the file opened, a part of it, and the
-- whole; a hard link between the old file and the inflated one is a flag, with which a write to
-- one is a write to both, and the hard links to the old file are counted; what librsync and zlib
-- make of the contents is a parameter (`Librsync`), as is what the file system answers
-- (`Answers`).
--
-- State is passed explicitly: a file being read is the bytes that are left, a file being written
-- is the bytes written and the room on the device, a connection is its two buffers. The int
-- results 0, 1 and -1 are `done`, `ended` and `failed`; `fault` stands for an access outside an
-- array or through a null pointer. Allocation does not fail, and logging is left out. A character
-- is a byte below 256, signed where it is compared, and integers have the widths of a 64-bit
-- Linux.
--
-- Fuel. The loops of Msg and Sbuf.Fill get a round for each byte that is left and one more, since
-- each round takes a byte or ends; the loop of phase 3 a round for each byte of the two lists and
-- three more, the loop over the old manifest of phase 2 a round for each byte and one more, the
-- loops of phase 1 a round for each message or byte and one more, that of the deletions as phase
-- 3, and the loop of `remove_old_backups` a round for each file of the directory and one more; the
-- results on them hold with this much. The loop over the ranges of a keep value gets a round for
-- each number below its bound, and each round lowers the bound by a positive number.
--
-- Not modelled: the rest of the client, the order in which phase 4 puts its parts together, the
-- order of entries and the verification in a restore, the configuration parser, the walk over
-- directories, locks, the status monitor, certificates, and the vendored libraries.
--
-- Tests has the theorems on concrete data.
pub mod Backups
pub mod Base64
pub mod Cmd
pub mod Counter
pub mod Dpth
pub mod Find
pub mod Hex
pub mod Msg
pub mod Net
pub mod Path
pub mod Phase1
pub mod Phase2
pub mod Phase3
pub mod Phase4
pub mod Prelude
pub mod Prepend
pub mod Restore
pub mod Sbuf
pub mod Stat
pub mod Strtoul
pub mod Tests
