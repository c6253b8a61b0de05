-- ===== src/Backups/Listing/Safe.antt =====
-- A pass of `do_remove_old_backups` over the listed backups of a client
-- (src/current_backups_server.c).
use burp.Prelude.{ℕ, ◌<◌, ◌≡◌, ◌≢◌, Bool, false, List, [], ◌∷◌, ◌++◌, All}
use burp.Prelude.Chars.{Bytes}
use burp.Backups.{Bu, ulong_mod, last, Found, do_remove_old_backups}
use burp.Backups.Removal.Deletable.{Fresh, Small, Deletable, do_remove-Deletable}
use burp.Backups.Removal.Safe.{successor_kept}
use burp.Backups.Removal.Newest.{product, newest_kept}
use burp.Backups.Listing.{collect, sort, get_current_backups}
use burp.Backups.Listing.Order.{sort-All, sort-Sorted, collect-Fresh}

module _ (removes : Bu → Bool) (keep : List ℕ) (w fin : Bytes) (dir : List Found)
    (small : All Small (collect w fin [] dir)) where
  sort-Small : All Small (sort (collect w fin [] dir))
  sort-Small = sort-All Small (collect w fin [] dir) small

  sort-Fresh : All Fresh (sort (collect w fin [] dir))
  sort-Fresh = sort-All Fresh (collect w fin [] dir) (collect-Fresh w fin [] dir)

  -- Where the indexes of the listed backups fit an int, a pass of `do_remove_old_backups` over the
  -- array of `get_current_backups` deletes only backups that are flagged as deletable, also when
  -- it removes the very oldest.
  pub listed-Deletable :
      All Deletable (do_remove_old_backups removes keep (get_current_backups w fin dir)).1
  unfolding get_current_backups
  listed-Deletable =
      do_remove-Deletable removes keep (sort (collect w fin [] dir))
        (sort-Sorted (collect w fin [] dir)) sort-Small sort-Fresh

  -- Where the indexes of the listed backups fit an int: if `x` stands directly before `y` in the
  -- array of `get_current_backups` and `x` is not hardlinked (its files are deltas against `y`),
  -- then no pass of `do_remove_old_backups` deletes `y`, whatever the keep values and whichever
  -- deletions succeed.
  pub listed-successor_kept :
      (pre : List Bu) (x y : Bu) (post : List Bu)
      → get_current_backups w fin dir ≡ pre ++ x ∷ y ∷ post
      → x.hardlinked ≡ false
      → All (λ b. b ≢ y) (do_remove_old_backups removes keep (get_current_backups w fin dir)).1
  unfolding get_current_backups
  listed-successor_kept pre x y post e n =
      successor_kept removes keep (sort (collect w fin [] dir)) pre x y post
        (sort-Sorted (collect w fin [] dir)) sort-Small sort-Fresh e n

  -- Where the indexes of the listed backups fit an int, the keep values are positive and their
  -- product fits an unsigned long, all that a pass of `do_remove_old_backups` deletes has a larger
  -- transposed index than the last backup of the array of `get_current_backups` (of an empty
  -- array, than a backup with transposed index 0): the newest backup is never deleted.
  pub listed-newest_kept :
      (d : Bu)
      → d.trindex ≡ 0
      → All (λ k. 0 < k) keep
      → product 1 keep < ulong_mod
      → All
          (λ b. (last d (get_current_backups w fin dir)).trindex < b.trindex)
          (do_remove_old_backups removes keep (get_current_backups w fin dir)).1
  unfolding get_current_backups
  listed-newest_kept d z pos p =
      newest_kept removes keep d (sort (collect w fin [] dir)) pos p z
        (sort-Sorted (collect w fin [] dir)) sort-Small sort-Fresh
