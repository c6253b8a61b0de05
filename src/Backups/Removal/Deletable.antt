-- ===== src/Backups/Removal/Deletable.antt =====
-- The flag `deletable` of src/current_backups_server.c, and the removal of the very oldest
-- backups.
use burp.Prelude.{
  ℕ, ◌+◌, ◌-◌, ◌%◌, ◌^◌, ◌≤◌, ◌<◌, ◌≡◌, refl, Bool, true, false, not, List, [], ◌∷◌, ltb, ◌==◌,
  if◌then◌else◌, All, All-map, arith,
}
use burp.Backups.{
  Bu, ulong_mod, last, mark_after, to_int, transpose, set_flags, oldest, do_remove_old_backups,
}
use burp.Backups.Removal.{do_remove-All}

abbrev pub Fresh : Bu → Type 0
Fresh b = (b.deletable ≡ false) × (b.trindex ≡ 0)

-- Ordered by index, as the array is after `qsort`.
abbrev pub Sorted : List Bu → Type 0
Sorted [] = Unit
Sorted (x ∷ xs) = All (λ y. x.index ≤ y.index) xs × Sorted xs

-- The indexes fit an `int`.
abbrev pub Small : Bu → Type 0
Small b = b.index < 2 ^ 31

last_le : (d : Bu) (xs : List Bu) → Sorted (d ∷ xs) → d.index ≤ (last d xs).index
last_le d [] h = omega arith
last_le d (x ∷ xs) h = let i = last_le x xs h.1 in let a = h.0.0 in omega arith

All-last_le :
    (d : Bu) (xs : List Bu) → Sorted (d ∷ xs) → All (λ y. y.index ≤ (last d xs).index) (d ∷ xs)
All-last_le d [] h = (omega arith, tt)
All-last_le d (x ∷ xs) h = (last_le d (x ∷ xs) h, All-last_le x xs h.1)

pub last-All : (P : Bu → Type 0) (d : Bu) (xs : List Bu) → All P (d ∷ xs) → P (last d xs)
last-All P d [] h = h.0
last-All P d (x ∷ xs) h = last-All P x xs h.1

pub mark-index :
    (Q : ℕ → Type 0) (h : Bool) (xs : List Bu)
    → All (λ b. Q b.index) xs
    → All (λ b. Q b.index) (mark_after h xs)
unfolding mark_after
mark-index Q h [] k = tt
mark-index Q h (x ∷ xs) k = (k.0, mark-index Q x.hardlinked xs k.1)

pub mark-trindex :
    (h : Bool) (xs : List Bu)
    → All (λ b. b.trindex ≡ 0) xs
    → All (λ b. b.trindex ≡ 0) (mark_after h xs)
unfolding mark_after
mark-trindex h [] k = tt
mark-trindex h (x ∷ xs) k = (k.0, mark-trindex x.hardlinked xs k.1)

-- `x.index` transposed.
abbrev pub trans : ℕ → ℕ → ℕ
trans tr i = (tr + (ulong_mod - i % ulong_mod) + 1) % ulong_mod

abbrev Between : ℕ → ℕ → ℕ → Type 0
Between i tr j = (i ≤ j) × (j ≤ tr)

pub trans_lem : (tr i : ℕ) → i ≤ tr → tr < 2 ^ 31 → trans tr i ≡ tr - i + 1
trans_lem tr i h k = omega arith

transpose_le :
    (tr i : ℕ) (xs : List Bu)
    → tr < 2 ^ 31
    → i ≤ tr
    → All (λ b. Between i tr b.index) xs
    → All (λ b. b.trindex ≤ trans tr i) (transpose tr xs)
unfolding transpose
transpose_le tr i [] h k a = tt
transpose_le tr i (x ∷ xs) h k a =
    let l = a.0.0 in
    let r = a.0.1 in
    let e = trans_lem tr x.index r h in
    let f = trans_lem tr i k h in (omega arith, transpose_le tr i xs h k a.1)

oldest-none : (m : ℕ) (acc bs : List Bu) → All (λ b. b.trindex ≤ m) bs → oldest m acc bs ≡ []
unfolding oldest
oldest-none m acc [] h = refl
oldest-none m acc (b ∷ bs) h = let a = h.0 in ground (arith, oldest-none m (b ∷ acc) bs h.1)

-- Where the first backup is the oldest, no other is removed as one of the very oldest.
oldest-All :
    (P : Bu → Type 0) (m : ℕ) (a : Bu) (bs : List Bu)
    → All (λ b. b.trindex ≤ a.trindex) bs
    → (m < a.trindex → P a)
    → All P (oldest m [] (a ∷ bs))
unfolding oldest
oldest-All P m a bs h p =
    elim (ltb m a.trindex)
        as (λ c. ltb m a.trindex ≡ c → All P (if c then a ∷ [] else oldest m (a ∷ []) bs)) [
          | true ↦ λ e. (p (ground arith), tt)
          | false ↦ λ e. rw (oldest-none m (a ∷ []) bs (All-map _ _ bs (λ b l. ground arith) h)) tt
        ]
      refl

abbrev pub Deletable : Bu → Type 0
Deletable b = b.deletable ≡ true

-- Removed as one of the very oldest.
abbrev pub Gone : ℕ → Bu → Type 0
Gone m b = (b.deletable ≡ true) × (m < b.trindex)

pub to_int-small : (i : ℕ) → i < 2 ^ 31 → to_int i ≡ i
to_int-small i h = ground arith

module _ (x y : Bu) (xs : List Bu) (h : Sorted (x ∷ y ∷ xs)) (s : All Small (x ∷ y ∷ xs)) where
  tr-small : (last y xs).index < 2 ^ 31
  tr-small = last-All Small y xs s.1

  -- The indexes are between the first and the last.
  between :
      (n : ℕ) (a : Bool)
      → n ≡ (last y xs).index
      → All (λ b. Between x.index n b.index) (mark_after a (y ∷ xs))
  between n a e = mark-index (Between x.index n) a (y ∷ xs) (
      All-map (λ b. Between x.index (last y xs).index b.index) (λ b. Between x.index n b.index)
        (y ∷ xs) (λ b p. let u = p.1 in (p.0, omega arith))
        (both (y ∷ xs) h.0 (All-last_le y xs h.1)))
    where
      both :
          (zs : List Bu)
          → All (λ z. x.index ≤ z.index) zs
          → All (λ z. z.index ≤ (last y xs).index) zs
          → All (λ b. Between x.index (last y xs).index b.index) zs
      both [] p q = tt
      both (z ∷ zs) p q = ((p.0, q.0), both zs p.1 q.1)

  first_le : x.index ≤ (last y xs).index
  first_le = let a = h.0.0 in let b = last_le y xs h.1 in omega arith

  -- The first backup is the oldest, and deletable.
  many-oldest :
      (m : ℕ)
      → All (λ b. b.trindex ≡ 0) (y ∷ xs)
      → All (Gone m) (oldest m [] (set_flags (x ∷ y ∷ xs)))
  unfolding set_flags
  many-oldest m zs =
      let tr = to_int (last y xs).index in
      let t : tr ≡ (last y xs).index = to_int-small (last y xs).index tr-small in
      let marked = mark_after x.hardlinked (y ∷ xs) in
      let l = tr-small in
      let f = first_le in
      elim (tr == 0)
        as (λ c. All (Gone m) (
          oldest m [] (
            if not c
            then transpose (to_int (last y xs).index)
                (mark_after false (record x { deletable = true } ∷ y ∷ xs))
            else mark_after false (record x { deletable = true } ∷ y ∷ xs)))) [
              | true ↦
                  oldest-All (Gone m) m (record x { deletable = true }) marked
                    (All-map (λ b. b.trindex ≡ 0) (λ b. b.trindex ≤ x.trindex) marked
                      (λ b e. omega arith) (mark-trindex x.hardlinked (y ∷ xs) zs))
                    (λ l. (refl, l))
              | false ↦
                  oldest-All (Gone m) m (record x { deletable = true; trindex = trans tr x.index })
                    (transpose tr marked)
                    (transpose_le tr x.index marked (omega arith) (omega arith)
                      (between tr x.hardlinked t))
                    (λ l. (refl, l))
            ]

pub Sorted-oldest :
    (m : ℕ) (bs : List Bu)
    → Sorted bs
    → All Small bs
    → All Fresh bs
    → All (Gone m) (oldest m [] (set_flags bs))
Sorted-oldest m [] h s k = unfold set_flags in unfold oldest in tt
Sorted-oldest m (x ∷ []) h s k =
    let z = k.0.1 in unfold set_flags in oldest-All (Gone m) m x [] tt (λ l. absurd (omega arith))
Sorted-oldest m (x ∷ y ∷ xs) h s k =
    many-oldest x y xs h s m (All-map Fresh (λ b. b.trindex ≡ 0) (y ∷ xs) (λ b f. f.1) k.1)

pub All-intro : (P : Bu → Type 0) (xs : List Bu) → ((x : Bu) → P x) → All P xs
All-intro P [] f = tt
All-intro P (x ∷ xs) f = (f x, All-intro P xs f)

-- Where the backups are sorted and freshly listed and their indexes fit an int, a pass of
-- `do_remove_old_backups` deletes only backups that are flagged as deletable, also when it removes
-- the very oldest.
pub do_remove-Deletable :
    (removes : Bu → Bool) (keep : List ℕ) (bs : List Bu)
    → Sorted bs
    → All Small bs
    → All Fresh bs
    → All Deletable (do_remove_old_backups removes keep (set_flags bs)).1
do_remove-Deletable removes keep bs h s k =
    do_remove-All removes Deletable keep (set_flags bs) (All-intro _ _ (λ b d l. d))
      (λ m e f. All-map (Gone m) Deletable _ (λ b g. g.0) (Sorted-oldest m bs h s k))
