-- ===== src/Backups/Removal.antt =====
-- The parts of `do_remove_old_backups` of src/current_backups_server.c, and what they delete.
pub mod Deletable
pub mod Safe
pub mod Thinning
pub mod Newest
use burp.Prelude.{
  ℕ, zero, suc, ◌+◌, ◌-◌, ◌*◌, ◌%◌, ◌^◌, ◌≤◌, ◌<◌, ◌≡◌, ◌≢◌, refl, Bool, true, false, not, ◌&&◌,
  ◌||◌, List, [], ◌∷◌, ◌++◌, ltb, leb, ◌==◌, if◌then◌else◌, length, length-append, All, arith,
  All-append, leb→le, ltb→lt,
}
use burp.Backups.{
  Bu, ulong_mod, last, mark_after, to_int, transpose, set_flags, in_range, count_range, thin,
  reverse_onto, ranges, keeps, oldest, delete_all, do_remove_old_backups,
}

module _ (removes : Bu → Bool) (P : Bu → Type 0) where
  All-reverse : (acc xs : List Bu) → All P acc → All P xs → All P (reverse_onto acc xs)
  All-reverse acc [] h k = h
  All-reverse acc (x ∷ xs) h k = All-reverse (x ∷ acc) xs (k.0, h) k.1

  All-if :
      (c : Bool) (x y : Bool × List Bu)
      → (c ≡ true → All P x.1)
      → (c ≡ false → All P y.1)
      → All P (if c then x else y).1
  All-if true x y f g = f refl
  All-if false x y f g = g refl

  add : (b : Bu) (del : List Bu) → All P del → P b → All P (del ++ b ∷ [])
  add b del k h = All-append P del (b ∷ []) k (h, tt)

  delete_all-All : (bs del : List Bu) → All P bs → All P del → All P (delete_all removes bs del).1
  unfolding delete_all
  delete_all-All [] del h k = k
  delete_all-All (b ∷ bs) del h k =
      All-if (not (removes b)) _ _ (λ e. k)
        (λ e. delete_all-All bs (del ++ b ∷ []) h.1 (add b del k h.0))

-- `b` may be deleted from a range, where it is deletable and not the newest.
abbrev pub MayGo : (Bu → Type 0) → Bu → Type 0
MayGo P b = b.deletable ≡ true → 1 < b.trindex → P b

module _ (removes : Bu → Bool) (P : Bu → Type 0) where
  thin-All :
      (s r count : ℕ) (bs del : List Bu)
      → 1 ≤ s
      → All (MayGo P) bs
      → All P del
      → All P (thin removes s r count bs del).1
  unfolding thin
  thin-All s r count [] del p h k = k
  thin-All s r count (b ∷ bs) del p h k =
      All-if removes P (in_range s r b && b.deletable) _ _
        (λ e.
          let k' = add removes P b del k (h.0 (ground arith) (ground arith)) in
          All-if removes P (not (removes b)) _ _ (λ e. k)
            (λ e.
              All-if removes P (leb (count - 1) 1) _ _ (λ e. k')
                (λ e. thin-All s r (count - 1) bs (del ++ b ∷ []) p h.1 k')))
        (λ e. thin-All s r count bs del p h.1 k)

  ranges-All :
      (f n r : ℕ) (arr del : List Bu)
      → All (MayGo P) arr
      → All P del
      → All P (ranges removes f n r arr del).1
  unfolding ranges
  ranges-All zero n r arr del h k = k
  ranges-All (suc f) n r arr del h k =
      All-if removes P (not (ltb n r)) _ _ (λ e. k)
        (λ e.
          let one : 1 ≤ r - n = ground arith in
          let k' =
            All-if removes P (ltb 1 (count_range (r - n) r arr)) _ _
              (λ e.
                thin-All (r - n) r (count_range (r - n) r arr) (reverse_onto [] arr) del one
                  (All-reverse removes (MayGo P) [] arr tt h) k)
              (λ e. k) in
          All-if removes P _ _ _ (λ e. k') (λ e. ranges-All f n (r - n) arr _ h k'))

  All-if3 :
      (c : Bool) (x y : Bool × ℕ × List Bu) → All P x.2 → All P y.2 → All P (if c then x else y).2
  All-if3 true x y h k = h
  All-if3 false x y h k = k

  keeps-All :
      (m : ℕ) (ks : List ℕ) (arr del : List Bu)
      → All (MayGo P) arr
      → All P del
      → All P (keeps removes m ks arr del).2
  unfolding keeps
  keeps-All m [] arr del h k = k
  keeps-All m (x ∷ []) arr del h k = k
  keeps-All m (x ∷ y ∷ ks) arr del h k =
      let k' =
        ranges-All (m * x % ulong_mod * y % ulong_mod) (m * x % ulong_mod)
          (m * x % ulong_mod * y % ulong_mod) arr del h k in
      All-if3 _ _ _ k' (keeps-All (m * x % ulong_mod) (y ∷ ks) arr _ h k')

  -- What a pass deletes was to go from a range, or is older than the product of the ranges.
  pub do_remove-All :
      (keep : List ℕ) (arr : List Bu)
      → All (MayGo P) arr
      → ((m : ℕ)
          → (keeps removes 1 keep arr []).0 ≡ true
          → m ≡ (keeps removes 1 keep arr []).1
          → All P (oldest m [] arr))
      → All P (do_remove_old_backups removes keep arr).1
  unfolding do_remove_old_backups
  do_remove-All keep arr h o =
      let k = keeps-All 1 keep arr [] h tt in
      All-if removes P (not (keeps removes 1 keep arr []).0) _ _ (λ e. k)
        (λ e. delete_all-All removes P _ _ (o _ (ground arith) refl) k)
