-- ===== src/Backups/Removal/Thinning.antt =====
-- The number of backups that are deleted from one range (src/current_backups_server.c).
use burp.Prelude.{
  ℕ, ◌+◌, ◌-◌, ◌≤◌, ◌<◌, ◌≡◌, refl, Bool, true, false, not, ◌&&◌, List, [], ◌∷◌, ◌++◌, leb,
  if◌then◌else◌, length, length-append, arith,
}
use burp.Backups.{Bu, in_range, thin}

module _ (removes : Bu → Bool) where
  length-if :
      (c : Bool) (x y : Bool × List Bu) (n : ℕ)
      → (c ≡ true → length x.1 ≤ n)
      → (c ≡ false → length y.1 ≤ n)
      → length (if c then x else y).1 ≤ n
  length-if true x y n f g = f refl
  length-if false x y n f g = g refl

  thin_le :
      (s r count : ℕ) (bs del : List Bu)
      → 1 < count
      → length (thin removes s r count bs del).1 ≤ length del + (count - 1)
  unfolding thin
  thin_le s r count [] del h = omega arith
  thin_le s r count (b ∷ bs) del h =
      let l : length (del ++ b ∷ []) ≡ length del + 1 = length-append del (b ∷ []) in
      length-if (in_range s r b && b.deletable) _ _ _
        (λ e.
          length-if (not (removes b)) _ _ _ (λ f. omega arith)
            (λ f.
              length-if (leb (count - 1) 1) _ _ _ (λ g. omega arith)
                (λ g.
                  let i = thin_le s r (count - 1) bs (del ++ b ∷ []) (ground arith) in
                  omega arith)))
        (λ e. thin_le s r count bs del h)

  -- Where a range holds more than one backup, thinning it deletes fewer backups than it holds, so
  -- at least one is left.
  pub thin-leaves :
      (s r count : ℕ) (bs del : List Bu)
      → 1 < count
      → length (thin removes s r count bs del).1 < length del + count
  thin-leaves s r count bs del h = let i = thin_le s r count bs del h in omega arith
