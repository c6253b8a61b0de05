-- ===== src/Phase3/Merge.antt =====
-- The merge of two lists of entries, as the abstract view of src/backup_phase3_server.c.
pub mod Lossless
use burp.Prelude.{◌≡◌, refl, List, [], ◌∷◌, ◌++◌}
use burp.Prelude.Chars.{Bytes}
use burp.Path.{Cmp, less, same, more}
use burp.Sbuf.Entry.{Entry, to_sbuf, messages}
use burp.Sbuf.Compare.{sbuf_pathcmp}

abbrev pub entry_cmp : Entry → Entry → Cmp
entry_cmp x y = sbuf_pathcmp (to_sbuf x) (to_sbuf y)

-- Where both lists have an entry, that of phase 2 is taken.
unfoldable pub merge : List Entry → List Entry → List Entry
merge [] new = new
merge (u ∷ old) [] = u ∷ old
merge (u ∷ old) (p ∷ new) = elim (entry_cmp u p) [
  | less ↦ u ∷ merge old (p ∷ new)
  | same ↦ p ∷ merge old new
  | more ↦ p ∷ merge (u ∷ old) new
]

-- The bytes of a list of entries.
abbrev pub all_messages : List Entry → Bytes
all_messages [] = []
all_messages (e ∷ es) = messages e ++ all_messages es

module _ (x y : Entry) (xs ys : List Entry) where
  pub merge-less : entry_cmp x y ≡ less → merge (x ∷ xs) (y ∷ ys) ≡ x ∷ merge xs (y ∷ ys)
  unfolding merge
  merge-less e = rw (e, merge) refl

  pub merge-same : entry_cmp x y ≡ same → merge (x ∷ xs) (y ∷ ys) ≡ y ∷ merge xs ys
  unfolding merge
  merge-same e = rw (e, merge) refl

  pub merge-more : entry_cmp x y ≡ more → merge (x ∷ xs) (y ∷ ys) ≡ y ∷ merge (x ∷ xs) ys
  unfolding merge
  merge-more e = rw (e, merge) refl

pub merge-nil : (xs : List Entry) → merge xs [] ≡ xs
unfolding merge
merge-nil [] = refl
merge-nil (x ∷ xs) = refl
