-- ===== src/Backups/Tree.antt =====
-- `recursive_delete` and `recursive_hardlink` of src/current_backups_server.c, on the tree of files
-- below a directory.
pub mod Delete
pub mod Link
use burp.Prelude.{ℕ, Bool, true, false, not, ◌&&◌, ◌||◌, Option, none, some, if◌then◌else◌}
use burp.Prelude.Chars.{Bytes}
use burp.Msg.{Ret, done, failed}
use burp.Prepend.{prepend_s}

-- What a directory holds, in the order of the loops, which go down from the last entry of `scandir`
-- to the first. A `dot` is an entry that is left out: "." or "..", or one without an inode.
mutual
  pub data Node : Type 0 where
    file : Bytes → Node
    dir : Entries → Node

  pub data Entries : Type 0 where
    nil : Entries
    dot : Entries → Entries
    entry : Bytes → Node → Entries → Entries

-- What the file system answers at a path.
pub record Answers : Type 0 where
  pub stats : Bytes → Bool
  pub lists : Bytes → Bool
  pub unlinks : Bytes → Bool
  pub rmdirs : Bytes → Bool
  pub mkpaths : Bytes → Bool
  pub links : Bytes → Bool

-- RECDEL_OK, RECDEL_ENTRIES_REMAINING and RECDEL_ERROR
pub data Recdel : Type 0 where
  recdel_ok recdel_remaining recdel_error : Recdel

-- Whether entries are left to the loop: `n > 0`.
abbrev pub more_entries : Entries → Bool
more_entries nil = false
more_entries _ = true

abbrev pub is_empty : Entries → Bool
is_empty nil = true
is_empty (dot es) = is_empty es
is_empty (entry name node es) = false

-- What becomes of a loop: whether it was broken off before the last entry, and the rest.
abbrev pub Loop : Type 0
Loop = Bool × Recdel × Entries

-- "do not overwrite ret with OK if it previously had ENTRIES_REMAINING"
abbrev keep_entry : Bytes → Node → Loop → Loop
keep_entry name node (b, r, left) = (b, recdel_remaining, entry name node left)

-- A directory that was deleted, or not because it could not be found.
abbrev pass_dir : Bytes → Option Entries → Loop → Loop
pass_dir name none l = l
pass_dir name (some sub) (b, r, left) = (b, r, entry name (dir sub) left)

abbrev after_dir : Bytes → Entries → Recdel × Option Entries → Loop → Loop
after_dir name rest (recdel_ok, sub) l = pass_dir name sub l
after_dir name rest (recdel_remaining, none) l = l
after_dir name rest (recdel_remaining, some sub) l = keep_entry name (dir sub) l
after_dir name rest (recdel_error, none) l = (more_entries rest, recdel_ok, rest)
after_dir name rest (recdel_error, some sub) l =
    (more_entries rest, recdel_ok, entry name (dir sub) rest)

-- The directory itself is removed where it is empty.
abbrev rmdir : Bool → Loop → Recdel × Option Entries
rmdir can (true, r, left) = (recdel_error, some left)
rmdir can (false, recdel_ok, left) =
    if is_empty left && can then (recdel_ok, none) else (recdel_error, some left)
rmdir can (false, r, left) = (r, some left)

-- The result, and what is left of the directory; the loop runs where it is found and listed.
abbrev pub delete_around : Answers → Bytes → Entries → Loop → Recdel × Option Entries
delete_around fs d es l =
    if not (fs.stats d)
    then (recdel_ok, some es)
    else if not (fs.lists d)
    then (recdel_error, some es)
    else rmdir (fs.rmdirs d) l

unfoldable pub delete_loop : Answers → Bool → Bytes → Entries → Loop
delete_loop fs delfiles d nil = (false, recdel_ok, nil)
delete_loop fs delfiles d (dot es) =
    let (b, r, left) = delete_loop fs delfiles d es in (b, r, dot left)
delete_loop fs delfiles d (entry name (file c) es) =
    let l = delete_loop fs delfiles d es in
    if delfiles && fs.unlinks (prepend_s d name) then l else keep_entry name (file c) l
delete_loop fs delfiles d (entry name (dir sub) es) =
    let l = delete_loop fs delfiles d es in
    let below = delete_loop fs delfiles (prepend_s d name) sub in
    after_dir name es (delete_around fs (prepend_s d name) sub below) l

unfoldable pub recursive_delete : Answers → Bool → Bytes → Entries → Recdel × Option Entries
unfolding delete_loop
recursive_delete fs delfiles d es = delete_around fs d es (delete_loop fs delfiles d es)

-- What becomes of the loop of `recursive_hardlink`: whether it was broken off before the last
-- entry, and what was made.
abbrev pub Made : Type 0
Made = Bool × Entries

abbrev made_dir : Bytes → Entries → Ret × Option Entries → Made → Made
made_dir name rest (done, none) m = m
made_dir name rest (done, some sub) (b, made) = (b, entry name (dir sub) made)
made_dir name rest (r, none) m = (more_entries rest, nil)
made_dir name rest (r, some sub) m = (more_entries rest, entry name (dir sub) nil)

-- The result, and the new directory, which was not there before.
abbrev pub link_around : Answers → Bytes → Bytes → Made → Ret × Option Entries
link_around fs src dst (b, made) =
    if not (fs.mkpaths dst)
    then (failed, none)
    else if not (fs.lists src)
    then (failed, some nil)
    else (if b then failed else done, some made)

-- `links` is the result of `do_link`.
unfoldable pub link_loop : Answers → Bytes → Bytes → Entries → Made
link_loop fs src dst nil = (false, nil)
link_loop fs src dst (dot es) = link_loop fs src dst es
link_loop fs src dst (entry name (file c) es) =
    let (b, made) = link_loop fs src dst es in
    if not (fs.stats (prepend_s src name))
    then (b, made)
    else if not (fs.links (prepend_s dst name))
    then (more_entries es, nil)
    else (b, entry name (file c) made)
link_loop fs src dst (entry name (dir sub) es) =
    let m = link_loop fs src dst es in
    let below = link_loop fs (prepend_s src name) (prepend_s dst name) sub in
    let r = link_around fs (prepend_s src name) (prepend_s dst name) below in
    if not (fs.stats (prepend_s src name)) then m else made_dir name es r m

unfoldable pub recursive_hardlink : Answers → Bytes → Bytes → Entries → Ret × Option Entries
unfolding link_loop
recursive_hardlink fs src dst es = link_around fs src dst (link_loop fs src dst es)
