-- ===== src/Backups/Tree/Delete.antt =====
-- What `recursive_delete` of src/current_backups_server.c leaves of a directory.
use burp.Prelude.{
  ◌≡◌, refl, ◌∙◌, ap, Bool, true, false, not, ◌&&◌, ◌||◌, Option, none, some, if◌then◌else◌,
}
use burp.Prelude.Chars.{Bytes}
use burp.Prepend.{prepend_s}
use burp.Backups.Tree.{
  Node, Entries, file, dir, nil, dot, entry, Answers, Recdel, recdel_ok, recdel_remaining, is_empty,
  after_dir, delete_around, delete_loop, recursive_delete,
}

-- The file system does what it is asked to.
pub record Works (fs : Answers) : Type 0 where
  pub stats : (p : Bytes) → fs.stats p ≡ true
  pub lists : (p : Bytes) → fs.lists p ≡ true
  pub unlinks : (p : Bytes) → fs.unlinks p ≡ true
  pub rmdirs : (p : Bytes) → fs.rmdirs p ≡ true

-- Whether there is a file, at any depth, that is not to be deleted.
unfoldable pub has_files : Bool → Entries → Bool
has_files delfiles nil = false
has_files delfiles (dot es) = has_files delfiles es
has_files delfiles (entry name (file c) es) = not delfiles || has_files delfiles es
has_files delfiles (entry name (dir sub) es) = has_files delfiles sub || has_files delfiles es

-- The files that are not to be deleted, and the directories that lead to them.
unfoldable pub prune : Bool → Entries → Entries
unfolding has_files
prune delfiles nil = nil
prune delfiles (dot es) = dot (prune delfiles es)
prune delfiles (entry name (file c) es) =
    let rest = prune delfiles es in if delfiles then rest else entry name (file c) rest
prune delfiles (entry name (dir sub) es) =
    let rest = prune delfiles es in
    let below = prune delfiles sub in
    if has_files delfiles sub then entry name (dir below) rest else rest

abbrev code : Bool → Recdel
code true = recdel_remaining
code false = recdel_ok

abbrev pub pruned : Bool → Entries → Recdel × Option Entries
pruned true left = (recdel_remaining, some left)
pruned false left = (recdel_ok, none)

is_empty-cond :
    (h : Bool) (name : Bytes) (node : Node) (left : Entries)
    → is_empty (if h then entry name node left else left) ≡ not h && is_empty left
is_empty-cond true name node left = refl
is_empty-cond false name node left = refl

is_empty-prune :
    (delfiles : Bool) (es : Entries) → is_empty (prune delfiles es) ≡ not (has_files delfiles es)
unfolding prune has_files
is_empty-prune delfiles nil = refl
is_empty-prune delfiles (dot es) = is_empty-prune delfiles es
is_empty-prune true (entry name (file c) es) = is_empty-prune true es
is_empty-prune false (entry name (file c) es) = refl
is_empty-prune delfiles (entry name (dir sub) es) =
    is_empty-cond (has_files delfiles sub) name _ (prune delfiles es)
    ∙ ap (λ b. not (has_files delfiles sub) && b) (is_empty-prune delfiles es)
    ∙ not-or (has_files delfiles sub) (has_files delfiles es)
  where
    not-or : (a b : Bool) → not a && not b ≡ not (a || b)
    not-or true b = refl
    not-or false b = refl

module _ (fs : Answers) (w : Works fs) where
  around-pruned :
      (d : Bytes) (es : Entries) (h : Bool) (left : Entries)
      → is_empty left ≡ not h
      → delete_around fs d es (false, code h, left) ≡ pruned h left
  around-pruned d es true left e = rw (w.stats d, w.lists d) refl
  around-pruned d es false left e = rw (w.stats d, w.lists d, e, w.rmdirs d) refl

  after-pruned :
      (name : Bytes) (es below left : Entries) (h g : Bool)
      → after_dir name es (pruned h below) (false, code g, left)
        ≡ (false, code (h || g), if h then entry name (dir below) left else left)
  after-pruned name es below left true g = refl
  after-pruned name es below left false g = refl

  loop-prune :
      (delfiles : Bool) (d : Bytes) (es : Entries)
      → delete_loop fs delfiles d es ≡ (false, code (has_files delfiles es), prune delfiles es)
  unfolding delete_loop has_files prune
  loop-prune delfiles d nil = refl
  loop-prune delfiles d (dot es) = rw (loop-prune delfiles d es) refl
  loop-prune true d (entry name (file c) es) =
      rw (w.unlinks (prepend_s d name)) (loop-prune true d es)
  loop-prune false d (entry name (file c) es) = rw (loop-prune false d es) refl
  loop-prune delfiles d (entry name (dir sub) es) =
      let p = prepend_s d name in
      let below = loop-prune delfiles p sub in
      let rest = loop-prune delfiles d es in
      let r =
        around-pruned p sub (has_files delfiles sub) (prune delfiles sub)
          (is_empty-prune delfiles sub) in
      let step : delete_around fs p sub (delete_loop fs delfiles p sub)
          ≡ pruned (has_files delfiles sub) (prune delfiles sub) =
        ap (delete_around fs p sub) below ∙ r in
      ap (λ x. after_dir name es x (delete_loop fs delfiles d es)) step
      ∙ ap (after_dir name es (pruned (has_files delfiles sub) (prune delfiles sub))) rest
      ∙ after-pruned name es (prune delfiles sub) (prune delfiles es) (has_files delfiles sub)
          (has_files delfiles es)

  -- Where the file system does what it is asked to, `recursive_delete` returns 0 and removes the
  -- directory if no file is to stay at any depth, else it returns 1, and exactly the files that
  -- are to stay are left, with the directories that lead to them; all stay unless files are to be
  -- deleted.
  pub recursive_delete-pruned :
      (delfiles : Bool) (d : Bytes) (es : Entries)
      → recursive_delete fs delfiles d es ≡ pruned (has_files delfiles es) (prune delfiles es)
  unfolding recursive_delete
  recursive_delete-pruned delfiles d es =
      ap (delete_around fs d es) (loop-prune delfiles d es)
      ∙ around-pruned d es (has_files delfiles es) (prune delfiles es) (is_empty-prune delfiles es)
