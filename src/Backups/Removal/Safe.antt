-- ===== src/Backups/Removal/Safe.antt =====
-- Backups that stand next to each other in the array of src/current_backups_server.c.
use burp.Prelude.{
  ℕ, ◌≡◌, ◌≢◌, refl, Bool, true, false, not, List, [], ◌∷◌, ◌++◌, ◌==◌, if◌then◌else◌, All, All-map,
  arith,
}
use burp.Backups.{Bu, last, mark_after, to_int, transpose, set_flags, do_remove_old_backups}
use burp.Backups.Removal.Deletable.{Fresh, Sorted, Small, Deletable, do_remove-Deletable}

-- `h` tells of the backup before `xs`: what comes behind one that is not hardlinked is not
-- deletable.
Links : Bool → List Bu → Type 0
Links h [] = Unit
Links h (x ∷ xs) = (x.deletable ≡ true → h ≡ true) × Links x.hardlinked xs

mark-Links : (h : Bool) (xs : List Bu) → All Fresh xs → Links h (mark_after h xs)
unfolding mark_after Links
mark-Links h [] f = tt
mark-Links h (x ∷ xs) f = let d = f.0.0 in ((λ e. ground arith), mark-Links x.hardlinked xs f.1)

transpose-Links : (tr : ℕ) (h : Bool) (xs : List Bu) → Links h xs → Links h (transpose tr xs)
unfolding transpose Links
transpose-Links tr h [] l = tt
transpose-Links tr h (x ∷ xs) l = (l.0, transpose-Links tr x.hardlinked xs l.1)

set_flags-Links : (bs : List Bu) → All Fresh bs → Links true (set_flags bs)
unfolding set_flags Links
set_flags-Links [] f = tt
set_flags-Links (x ∷ []) f = ((λ e. refl), tt)
set_flags-Links (x ∷ y ∷ xs) f =
    let l = mark-Links x.hardlinked (y ∷ xs) f.1 in
    let marked = mark_after false (record x { deletable = true } ∷ y ∷ xs) in
    elim (to_int (last y xs).index == 0)
      as (λ c. Links true (if not c then transpose (to_int (last y xs).index) marked else marked)) [
        | true ↦ ((λ e. refl), l)
        | false ↦ (
          (λ e. refl),
          transpose-Links (to_int (last y xs).index) x.hardlinked (mark_after x.hardlinked (y ∷ xs))
              l,
        )
      ]

Links-adjacent :
    (h : Bool) (pre : List Bu) (x y : Bu) (post : List Bu)
    → Links h (pre ++ x ∷ y ∷ post)
    → y.deletable ≡ true
    → x.hardlinked ≡ true
unfolding Links
Links-adjacent h [] x y post l d = l.1.0 d
Links-adjacent h (z ∷ pre) x y post l d = Links-adjacent z.hardlinked pre x y post l.1 d

-- Where the backups are sorted, their indexes fit an int and they are freshly listed: if `x`
-- stands directly before `y` in the flagged array and `x` is not hardlinked (its files are deltas
-- against `y`), then no pass of `do_remove_old_backups` deletes `y`, whatever the keep values and
-- whichever deletions succeed.
pub successor_kept :
    (removes : Bu → Bool) (keep : List ℕ) (bs pre : List Bu) (x y : Bu) (post : List Bu)
    → Sorted bs
    → All Small bs
    → All Fresh bs
    → set_flags bs ≡ pre ++ x ∷ y ∷ post
    → x.hardlinked ≡ false
    → All (λ b. b ≢ y) (do_remove_old_backups removes keep (set_flags bs)).1
successor_kept removes keep bs pre x y post h s f e n =
    All-map Deletable (λ b. b ≢ y) _
      (λ b d same_bu.
        let l : Links true (pre ++ x ∷ y ∷ post) = rw e at (set_flags-Links bs f) in
        let d' : y.deletable ≡ true = rw same_bu at d in
        let k = Links-adjacent true pre x y post l d' in ground arith)
      (do_remove-Deletable removes keep bs h s f)
