-- ===== src/Backups/Removal/Newest.antt =====
-- The transposed indexes of src/current_backups_server.c, and the last backup.
use native.Mathlib.Nat.{mul_comm, suc-mul}
use burp.Prelude.{
  ℕ, zero, suc, ◌*◌, ◌%◌, ◌≤◌, ◌<◌, ◌≡◌, refl, Bool, true, false, not, ◌||◌, List, [], ◌∷◌, ◌==◌,
  if◌then◌else◌, All, All-map, arith,
}
use burp.Backups.{
  Bu, ulong_mod, last, mark_after, to_int, transpose, set_flags, keeps, do_remove_old_backups,
}
use burp.Backups.Removal.{do_remove-All}
use burp.Backups.Removal.Deletable.{
  Fresh, mark-trindex, Sorted, Small, Gone, All-intro, Sorted-oldest, to_int-small, last-All, trans,
  trans_lem,
}

-- The product of the `keep` values.
abbrev pub product : ℕ → List ℕ → ℕ
product m [] = m
product m (k ∷ ks) = product (m * k) ks

le_mul : (m k : ℕ) → 0 < k → m ≤ m * k
le_mul m zero h = absurd (omega arith)
le_mul m (suc k) h = let e = mul_comm m (suc k) in let f = suc-mul k m in omega arith

product_le : (m : ℕ) (ks : List ℕ) → All (λ k. 0 < k) ks → m ≤ product m ks
product_le m [] h = omega arith
product_le m (k ∷ ks) h = let a = le_mul m k h.0 in let b = product_le (m * k) ks h.1 in omega arith

module _ (removes : Bu → Bool) where
  pos-if : (c : Bool) (x y : Bool × ℕ × List Bu) → 0 < x.1 → 0 < y.1 → 0 < (if c then x else y).1
  pos-if true x y h k = h
  pos-if false x y h k = k

  -- `m` does not become 0.
  keeps_pos :
      (m : ℕ) (ks : List ℕ) (arr del : List Bu)
      → All (λ k. 0 < k) ks
      → product m ks < ulong_mod
      → 0 < m
      → 0 < (keeps removes m ks arr del).1
  unfolding keeps
  keeps_pos m [] arr del h p z = z
  keeps_pos m (k ∷ []) arr del h p z = let a = le_mul m k h.0 in omega arith
  keeps_pos m (k ∷ k' ∷ ks) arr del h p z =
      let a = le_mul m k h.0 in
      let b : m * k ≤ product (m * k * k') ks = product_le (m * k) (k' ∷ ks) h.1 in
      let n : m * k % ulong_mod ≡ m * k = omega arith in
      let n_pos : 0 < m * k % ulong_mod = omega arith in
      pos-if _ _ _ n_pos (keeps_pos (m * k % ulong_mod) (k' ∷ ks) arr _ h.1 (rw n p) n_pos)

last-transpose :
    (tr : ℕ) (d x : Bu) (xs : List Bu)
    → (last d (transpose tr (x ∷ xs))).trindex ≡ trans tr (last x xs).index
unfolding transpose
last-transpose tr d x [] = refl
last-transpose tr d x (y ∷ xs) = last-transpose tr (record x { trindex = trans tr x.index }) y xs

last-mark :
    (h : Bool) (d d' : Bu) (xs : List Bu)
    → d.index ≡ d'.index
    → (last d (mark_after h xs)).index ≡ (last d' xs).index
unfolding mark_after
last-mark h d d' [] e = e
last-mark h d d' (y ∷ xs) e =
    last-mark y.hardlinked (record y { deletable = y.deletable || h }) y xs refl

newest_le :
    (d : Bu) (bs : List Bu)
    → d.trindex ≡ 0
    → All Small bs
    → All Fresh bs
    → (last d (set_flags bs)).trindex ≤ 1
unfolding set_flags
newest_le d [] z s f = omega arith
newest_le d (x ∷ []) z s f = let e = f.0.1 in omega arith
newest_le d (x ∷ y ∷ xs) z s f =
    let small = last-All Small y xs s.1 in
    let tr = to_int (last y xs).index in
    let t : tr ≡ (last y xs).index = to_int-small (last y xs).index small in
    let x' = record x { deletable = true } in
    let y' = record y { deletable = y.deletable || x.hardlinked } in
    let marked = mark_after y.hardlinked xs in
    let same_index : (last y' marked).index ≡ (last y xs).index =
      last-mark y.hardlinked y' y xs refl in
    elim (tr == 0)
      as (λ c.
        (last d (
          if not c
          then transpose (to_int (last y xs).index)
              (mark_after false (record x { deletable = true } ∷ y ∷ xs))
          else mark_after false (record x { deletable = true } ∷ y ∷ xs))).trindex
        ≤ 1) [
          | true ↦
              let e =
                last-All (λ b. b.trindex ≡ 0) y' marked
                  (mark-trindex x.hardlinked (y ∷ xs)
                    (All-map Fresh (λ b. b.trindex ≡ 0) (y ∷ xs) (λ b g. g.1) f.1)) in
              omega arith
          | false ↦
              let e = last-transpose tr x' y' marked in
              let g = trans_lem tr (last y' marked).index (omega arith) (omega arith) in omega arith
        ]

-- Where the keep values are positive and their product fits an unsigned long, the backups are
-- sorted and freshly listed and their indexes fit an int, everything that a pass deletes has a
-- larger transposed index than the last backup of the array: the newest backup is never deleted.
pub newest_kept :
    (removes : Bu → Bool) (keep : List ℕ) (d : Bu) (bs : List Bu)
    → All (λ k. 0 < k) keep
    → product 1 keep < ulong_mod
    → d.trindex ≡ 0
    → Sorted bs
    → All Small bs
    → All Fresh bs
    → All
        (λ b. (last d (set_flags bs)).trindex < b.trindex)
        (do_remove_old_backups removes keep (set_flags bs)).1
newest_kept removes keep d bs pos p z h s f =
    let l = newest_le d bs z s f in
    let m_pos = keeps_pos removes 1 keep (set_flags bs) [] pos p (omega arith) in
    do_remove-All removes (λ b. (last d (set_flags bs)).trindex < b.trindex) keep (set_flags bs)
      (All-intro _ _ (λ b e i. omega arith))
      (λ m e g. All-map (Gone m) _ _ (λ b o. let u = o.1 in omega arith) (Sorted-oldest m bs h s f))
