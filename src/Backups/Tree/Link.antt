-- ===== src/Backups/Tree/Link.antt =====
-- What `recursive_hardlink` of src/current_backups_server.c makes of a directory.
use burp.Prelude.{◌≡◌, refl, ◌∙◌, sym, ap, true, false, some}
use burp.Prelude.Chars.{Bytes}
use burp.Msg.{done}
use burp.Prepend.{prepend_s}
use burp.Backups.Tree.{
  Entries, file, dir, nil, dot, entry, Answers, made_dir, link_around, link_loop,
  recursive_hardlink,
}

-- The entries but those that are left out.
unfoldable pub undot : Entries → Entries
undot nil = nil
undot (dot es) = undot es
undot (entry name (file c) es) = entry name (file c) (undot es)
undot (entry name (dir sub) es) = entry name (dir (undot sub)) (undot es)

-- Everything is found and listed, and the directories can be made.
pub record Reads (fs : Answers) : Type 0 where
  pub stats : (p : Bytes) → fs.stats p ≡ true
  pub lists : (p : Bytes) → fs.lists p ≡ true
  pub mkpaths : (p : Bytes) → fs.mkpaths p ≡ true

-- Each of the files can be linked.
abbrev pub Linkable : Answers → Bytes → Entries → Type 0
Linkable fs dst nil = Unit
Linkable fs dst (dot es) = Linkable fs dst es
Linkable fs dst (entry name (file c) es) =
    (fs.links (prepend_s dst name) ≡ true) × Linkable fs dst es
Linkable fs dst (entry name (dir sub) es) =
    Linkable fs (prepend_s dst name) sub × Linkable fs dst es

-- The entries, and one more, which the loop comes to at the end.
unfoldable pub with_last : Entries → Entries → Entries
with_last nil last = last
with_last (dot es) last = dot (with_last es last)
with_last (entry name node es) last = entry name node (with_last es last)

with_last-nil : (es : Entries) → with_last es nil ≡ es
unfolding with_last
with_last-nil nil = refl
with_last-nil (dot es) = ap dot (with_last-nil es)
with_last-nil (entry name node es) = ap (entry name node) (with_last-nil es)

module _ (fs : Answers) (w : Reads fs) where
  around-made :
      (src dst : Bytes) (made : Entries) → link_around fs src dst (false, made) ≡ (done, some made)
  around-made src dst made = rw (w.mkpaths dst, w.lists src) refl

  -- The loop on entries that can be linked, and on what comes behind them.
  loop-with_last :
      (src dst : Bytes) (es last made : Entries)
      → Linkable fs dst es
      → link_loop fs src dst last ≡ (false, made)
      → link_loop fs src dst (with_last es last) ≡ (false, with_last (undot es) made)
  unfolding link_loop with_last undot
  loop-with_last src dst nil last made h e = e
  loop-with_last src dst (dot es) last made h e = loop-with_last src dst es last made h e
  loop-with_last src dst (entry name (file c) es) last made h e =
      rw (w.stats (prepend_s src name), h.0, loop-with_last src dst es last made h.1 e) refl
  loop-with_last src dst (entry name (dir sub) es) last made h e =
      let p = prepend_s src name in
      let q = prepend_s dst name in
      let below : link_loop fs p q sub ≡ (false, undot sub) =
        ap (link_loop fs p q) (sym (with_last-nil sub))
        ∙ loop-with_last p q sub nil nil h.0 refl
        ∙ ap (λ x. (false, x)) (with_last-nil (undot sub)) in
      let r : link_around fs p q (link_loop fs p q sub) ≡ (done, some (undot sub)) =
        ap (link_around fs p q) below ∙ around-made p q (undot sub) in
      rw (w.stats p) (
        ap (λ x. made_dir name (with_last es last) x (link_loop fs src dst (with_last es last))) r
        ∙ ap (made_dir name (with_last es last) (done, some (undot sub)))
            (loop-with_last src dst es last made h.1 e))

  last-failed :
      (src dst name content : Bytes)
      → fs.links (prepend_s dst name) ≡ false
      → link_loop fs src dst (entry name (file content) nil) ≡ (false, nil)
  unfolding link_loop
  last-failed src dst name content e = rw (w.stats (prepend_s src name), e) refl

  nothing : (src dst : Bytes) → link_loop fs src dst nil ≡ (false, nil)
  unfolding link_loop
  nothing src dst = refl

  -- Where everything is found, listed and made, and each file can be linked, `recursive_hardlink`
  -- returns 0, and the new directory holds all entries but "." and "..".
  pub recursive_hardlink-undot :
      (src dst : Bytes) (es : Entries)
      → Linkable fs dst es
      → recursive_hardlink fs src dst es ≡ (done, some (undot es))
  unfolding recursive_hardlink
  recursive_hardlink-undot src dst es h =
      let loop : link_loop fs src dst es ≡ (false, undot es) =
        ap (link_loop fs src dst) (sym (with_last-nil es))
        ∙ loop-with_last src dst es nil nil h (nothing src dst)
        ∙ ap (λ x. (false, x)) (with_last-nil (undot es)) in
      ap (link_around fs src dst) loop ∙ around-made src dst (undot es)

  -- Where everything is found, listed and made, each file but one can be linked, and that one is
  -- the last that the loop comes to, `recursive_hardlink` returns 0 though the new directory lacks
  -- that file.
  pub hardlink_unreported :
      (src dst : Bytes) (es : Entries) (name content : Bytes)
      → Linkable fs dst es
      → fs.links (prepend_s dst name) ≡ false
      → recursive_hardlink fs src dst (with_last es (entry name (file content) nil))
        ≡ (done, some (undot es))
  unfolding recursive_hardlink
  hardlink_unreported src dst es name content h e =
      let last = entry name (file content) nil in
      ap (link_around fs src dst)
        (loop-with_last src dst es last nil h (last-failed src dst name content e))
      ∙ around-made src dst (with_last (undot es) nil)
      ∙ ap (λ x. (done, some x)) (with_last-nil (undot es))
