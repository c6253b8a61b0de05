-- ===== src/Phase4/Deletions/Subtract.antt =====
-- What is left of a manifest without the deletions, as the abstract view of
-- `maybe_delete_files_from_manifest` in src/backup_phase4_server.c.
use burp.Prelude.{◌≡◌, refl, ◌⊎◌, inl, inr, List, [], ◌∷◌}
use burp.Path.{less, same, more}
use burp.Sbuf.Entry.{Entry}
use burp.Phase3.Merge.{entry_cmp}

unfoldable pub subtract : List Entry → List Entry → List Entry
subtract [] dels = []
subtract (m ∷ ms) [] = m ∷ ms
subtract (m ∷ ms) (d ∷ dels) = elim (entry_cmp m d) [
  | less ↦ m ∷ subtract ms (d ∷ dels)
  | same ↦ subtract ms dels
  | more ↦ subtract (m ∷ ms) dels
]

module _ (m d : Entry) (ms dels : List Entry) where
  pub subtract-less :
      entry_cmp m d ≡ less → subtract (m ∷ ms) (d ∷ dels) ≡ m ∷ subtract ms (d ∷ dels)
  unfolding subtract
  subtract-less e = rw (e, subtract) refl

  pub subtract-same : entry_cmp m d ≡ same → subtract (m ∷ ms) (d ∷ dels) ≡ subtract ms dels
  unfolding subtract
  subtract-same e = rw (e, subtract) refl

  pub subtract-more : entry_cmp m d ≡ more → subtract (m ∷ ms) (d ∷ dels) ≡ subtract (m ∷ ms) dels
  unfolding subtract
  subtract-more e = rw (e, subtract) refl

-- The entry compares as the same as one of these.
abbrev pub Matches : Entry → List Entry → Type 0
Matches m [] = ⊥
Matches m (d ∷ dels) = (entry_cmp m d ≡ same) ⊎ Matches m dels

-- `rest` is `ms` without some entries, each of which matches a deletion.
pub data Without (dels : List Entry) : List Entry → List Entry → Type 0 where
  at_end : Without dels [] []
  kept :
      {m : Entry} {ms rest : List Entry} → Without dels ms rest → Without dels (m ∷ ms) (m ∷ rest)
  dropped :
      {m : Entry} {ms rest : List Entry}
      → Matches m dels
      → Without dels ms rest
      → Without dels (m ∷ ms) rest

Without-refl : (dels ms : List Entry) → Without dels ms ms
Without-refl dels [] = at_end
Without-refl dels (m ∷ ms) = kept (Without-refl dels ms)

Without-more :
    (d : Entry) (dels ms rest : List Entry) → Without dels ms rest → Without (d ∷ dels) ms rest
Without-more d dels _ _ at_end = at_end
Without-more d dels _ _ (kept w) = kept (Without-more d dels _ _ w)
Without-more d dels _ _ (dropped h w) = dropped (inr h) (Without-more d dels _ _ w)

pub subtract-Without : (ms dels : List Entry) → Without dels ms (subtract ms dels)
unfolding subtract
subtract-Without [] dels = at_end
subtract-Without (m ∷ ms) [] = Without-refl [] (m ∷ ms)
subtract-Without (m ∷ ms) (d ∷ dels) =
    elim (entry_cmp m d)
        as (λ c. entry_cmp m d ≡ c → Without (d ∷ dels) (m ∷ ms) (subtract (m ∷ ms) (d ∷ dels))) [
          | less ↦ λ e. rw (subtract-less m d ms dels e) (kept (subtract-Without ms (d ∷ dels)))
          | same ↦ λ e.
              rw (subtract-same m d ms dels e)
                (dropped (inl e) (Without-more d dels _ _ (subtract-Without ms dels)))
          | more ↦ λ e.
              rw (subtract-more m d ms dels e)
                (Without-more d dels _ _ (subtract-Without (m ∷ ms) dels))
        ]
      refl
