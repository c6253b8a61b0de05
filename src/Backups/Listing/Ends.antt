-- ===== src/Backups/Listing/Ends.antt =====
-- The loop of `remove_old_backups` of src/current_backups_server.c, by the size of the directory.
use burp.Prelude.{
  ℕ, zero, suc, ◌+◌, ◌≤◌, ◌<◌, ◌≡◌, ◌≢◌, refl, ltb, Bool, true, false, not, ◌||◌, Option, none,
  some, List, [], ◌∷◌, ◌==◌, if◌then◌else◌, length, All, All-map, arith,
}
use burp.Prelude.Chars.{Bytes, str_eq}
use burp.Backups.{
  Bu, last, mark_after, to_int, transpose, set_flags, oldest, Found, do_remove_old_backups,
}
use burp.Backups.Removal.{MayGo, do_remove-All}
use burp.Backups.Listing.Order.{to_bu-Found, sort-All}
use burp.Backups.Listing.{
  to_bu, collect, sort, get_current_backups, has_path, without, remove_loop, remove_old_backups,
}

-- The directory has a file of this name.
named : List Found → Bytes → Bool
named [] p = false
named (f ∷ fs) p = str_eq f.name p || named fs p

str_eq_refl : (s : Bytes) → str_eq s s ≡ true
unfolding str_eq
str_eq_refl [] = refl
str_eq_refl (c ∷ s) = ground (arith, str_eq_refl s)

collect-named :
    (w fin buf : Bytes) (dir : List Found)
    → All (λ b. named dir b.path ≡ true) (collect w fin buf dir)
unfolding collect named
collect-named w fin buf [] = tt
collect-named w fin buf (f ∷ fs) =
    let buf' = (to_bu w fin buf f).1 in
    let rest =
      All-map (λ b. named fs b.path ≡ true) (λ b. named (f ∷ fs) b.path ≡ true)
        (collect w fin buf' fs) (λ b e. ground arith) (collect-named w fin buf' fs) in
    elim (to_bu w fin buf f).0
        as (λ o.
          (to_bu w fin buf f).0 ≡ o
          → All (λ b. named (f ∷ fs) b.path ≡ true)
              (elim o [ none ↦ collect w fin buf' fs | some b ↦ b ∷ collect w fin buf' fs ])) [
                | none ↦ λ e. rest
                | some b ↦ λ e.
                    let n = (to_bu-Found w fin buf f b e).0 in
                    let r = str_eq_refl f.name in
                    let s : str_eq f.name b.path ≡ true = rw n r in (ground arith, rest)
              ]
      refl

-- A property of the path stays through the numbering.
module _ (Q : Bytes → Type 0) where
  mark-path :
      (h : Bool) (xs : List Bu) → All (λ b. Q b.path) xs → All (λ b. Q b.path) (mark_after h xs)
  unfolding mark_after
  mark-path h [] k = tt
  mark-path h (x ∷ xs) k = (k.0, mark-path x.hardlinked xs k.1)

  transpose-path :
      (tr : ℕ) (xs : List Bu) → All (λ b. Q b.path) xs → All (λ b. Q b.path) (transpose tr xs)
  unfolding transpose
  transpose-path tr [] k = tt
  transpose-path tr (x ∷ xs) k = (k.0, transpose-path tr xs k.1)

  set_flags-path : (xs : List Bu) → All (λ b. Q b.path) xs → All (λ b. Q b.path) (set_flags xs)
  unfolding set_flags
  set_flags-path [] k = tt
  set_flags-path (x ∷ []) k = k
  set_flags-path (x ∷ y ∷ xs) k =
      let m = mark-path false (record x { deletable = true } ∷ y ∷ xs) k in
      elim (to_int (last y xs).index == 0)
        as (λ c.
          All (λ b. Q b.path)
            (if not c
              then transpose (to_int (last y xs).index)
                  (mark_after false (record x { deletable = true } ∷ y ∷ xs))
              else mark_after false (record x { deletable = true } ∷ y ∷ xs))) [
                | true ↦ m
                | false ↦
                    transpose-path (to_int (last y xs).index)
                      (mark_after false (record x { deletable = true } ∷ y ∷ xs)) m
              ]

oldest-any :
    (P : Bu → Type 0) (m : ℕ) (acc bs : List Bu) → All P acc → All P bs → All P (oldest m acc bs)
unfolding oldest
oldest-any P m acc [] h k = tt
oldest-any P m acc (b ∷ bs) h k =
    elim (ltb m b.trindex) as (λ c. All P (if c then b ∷ acc else oldest m (b ∷ acc) bs)) [
      | true ↦ (k.0, h)
      | false ↦ oldest-any P m (b ∷ acc) bs (k.0, h) k.1
    ]

-- What a pass deletes is in the directory.
pass-named :
    (removes : Bu → Bool) (keep : List ℕ) (w fin : Bytes) (dir : List Found)
    → All
        (λ b. named dir b.path ≡ true)
        (do_remove_old_backups removes keep (get_current_backups w fin dir)).1
unfolding get_current_backups
pass-named removes keep w fin dir =
    let found =
      sort-All (λ b. named dir b.path ≡ true) (collect w fin [] dir) (collect-named w fin [] dir) in
    let here = set_flags-path (λ p. named dir p ≡ true) (sort (collect w fin [] dir)) found in
    do_remove-All removes (λ b. named dir b.path ≡ true) keep (get_current_backups w fin dir)
      (All-map (λ b. named dir b.path ≡ true) (MayGo (λ b. named dir b.path ≡ true)) _
        (λ b h d l. h) here)
      (λ m e g.
        oldest-any (λ b. named dir b.path ≡ true) m [] (get_current_backups w fin dir) tt here)

without_le : (del : List Bu) (fs : List Found) → length (without del fs) ≤ length fs
unfolding without
without_le del [] = omega arith
without_le del (f ∷ fs) = let l = without_le del fs in ground arith

without_lt :
    (b : Bu) (del : List Bu) (fs : List Found)
    → named fs b.path ≡ true
    → length (without (b ∷ del) fs) < length fs
unfolding without has_path named
without_lt b del [] h = ground arith
without_lt b del (f ∷ fs) h =
    let l = without_le (b ∷ del) fs in
    elim (str_eq f.name b.path)
        as (λ c. str_eq f.name b.path ≡ c → length (without (b ∷ del) (f ∷ fs)) < length (f ∷ fs)) [
          | true ↦ λ e. rw (e, without, has_path) (omega arith)
          | false ↦ λ e. let i = without_lt b del fs (ground arith) in ground arith
        ]
      refl

-- A pass that deletes something leaves a smaller directory.
pass_lt :
    (del : List Bu) (dir : List Found)
    → All (λ b. named dir b.path ≡ true) del
    → length del ≢ 0
    → length (without del dir) < length dir
pass_lt [] dir h n = absurd (n refl)
pass_lt (b ∷ del) dir h n = without_lt b del dir h.0

module _ (removes : Bu → Bool) (keep : List ℕ) (w fin : Bytes) where
  -- The loop came to an end; where it succeeded, a further pass would delete nothing.
  abbrev pub Settles : Option (Bool × List Found) → Type 0
  Settles none = ⊥
  Settles (some (false, dir)) = Unit
  Settles (some (true, dir)) =
      do_remove_old_backups removes keep (get_current_backups w fin dir) ≡ (true, [])

  Settles-if :
      (c : Bool) (x y : Option (Bool × List Found))
      → (c ≡ true → Settles x)
      → (c ≡ false → Settles y)
      → Settles (if c then x else y)
  Settles-if true x y f g = f refl
  Settles-if false x y f g = g refl

  nothing-deleted :
      (r : Bool × List Bu) → not r.0 ≡ false → (length r.1 == 0) ≡ true → r ≡ (true, [])
  nothing-deleted (true, []) e f = refl
  nothing-deleted (true, b ∷ bs) e f = ground arith
  nothing-deleted (false, bs) e f = ground arith

  loop-Settles :
      (f : ℕ) (dir : List Found) → length dir < f → Settles (remove_loop removes f keep w fin dir)
  unfolding remove_loop
  loop-Settles zero dir h = absurd (omega arith)
  loop-Settles (suc f) dir h =
      let r = do_remove_old_backups removes keep (get_current_backups w fin dir) in
      Settles-if (not r.0) _ _ (λ e. tt)
        (λ e.
          Settles-if (length r.1 == 0) _ _ (λ z. nothing-deleted r e z)
            (λ z.
              let l = pass_lt r.1 dir (pass-named removes keep w fin dir) (λ n. ground arith) in
              loop-Settles f (without r.1 dir) (omega arith)))

  -- For every directory, set of keep values and outcome of the deletions, `remove_old_backups`
  -- ends within one pass for each file of the directory and one more; where it succeeds, a further
  -- pass would succeed and delete nothing.
  pub remove-Settles : (dir : List Found) → Settles (remove_old_backups removes keep w fin dir)
  unfolding remove_old_backups
  remove-Settles dir = loop-Settles (length dir + 1) dir (omega arith)
