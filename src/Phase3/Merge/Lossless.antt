-- ===== src/Phase3/Merge/Lossless.antt =====
-- The entries of the merge.
use burp.Prelude.{◌≡◌, refl, ◌⊎◌, inl, inr, List, [], ◌∷◌, All, All-map}
use burp.Path.{less, same, more}
use burp.Sbuf.Entry.{Entry}
use burp.Phase3.Merge.{entry_cmp, merge, merge-less, merge-same, merge-more}

-- `x` is in the list.
abbrev pub In : Entry → List Entry → Type 0
In x [] = ⊥
In x (z ∷ zs) = (x ≡ z) ⊎ In x zs

-- `x` is in the list, or one that compares as the same.
abbrev pub Covered : Entry → List Entry → Type 0
Covered x [] = ⊥
Covered x (z ∷ zs) = ((x ≡ z) ⊎ (entry_cmp x z ≡ same)) ⊎ Covered x zs

In-Covered : (x : Entry) (zs : List Entry) → In x zs → Covered x zs
In-Covered x [] h = h
In-Covered x (z ∷ zs) (inl e) = inl (inl e)
In-Covered x (z ∷ zs) (inr h) = inr (In-Covered x zs h)

All-In : (zs : List Entry) → All (λ z. In z zs) zs
All-In [] = tt
All-In (z ∷ zs) =
    (inl refl, All-map (λ x. In x zs) (λ x. In x (z ∷ zs)) zs (λ x h. inr h) (All-In zs))

module _ (z : Entry) (zs : List Entry) where
  more-In : (xs : List Entry) → All (λ x. In x zs) xs → All (λ x. In x (z ∷ zs)) xs
  more-In xs h = All-map (λ x. In x zs) (λ x. In x (z ∷ zs)) xs (λ x i. inr i) h

  more-Covered : (xs : List Entry) → All (λ x. Covered x zs) xs → All (λ x. Covered x (z ∷ zs)) xs
  more-Covered xs h = All-map (λ x. Covered x zs) (λ x. Covered x (z ∷ zs)) xs (λ x i. inr i) h

same-In :
    {zs zs' : List Entry} (xs : List Entry)
    → zs ≡ zs'
    → All (λ x. In x zs') xs
    → All (λ x. In x zs) xs
same-In {zs} {zs'} xs e h = All-map (λ x. In x zs') (λ x. In x zs) xs (λ x i. rw e i) h

same-Covered :
    {zs zs' : List Entry} (xs : List Entry)
    → zs ≡ zs'
    → All (λ x. Covered x zs') xs
    → All (λ x. Covered x zs) xs
same-Covered {zs} {zs'} xs e h =
    All-map (λ x. Covered x zs') (λ x. Covered x zs) xs (λ x i. rw e i) h

pub merge-In : (xs ys : List Entry) → All (λ y. In y (merge xs ys)) ys
unfolding merge
merge-In [] ys = All-In ys
merge-In (x ∷ xs) [] = tt
merge-In (x ∷ xs) (y ∷ ys) =
    elim (entry_cmp x y)
        as (λ c. entry_cmp x y ≡ c → All (λ z. In z (merge (x ∷ xs) (y ∷ ys))) (y ∷ ys)) [
          | less ↦ λ e.
              same-In (y ∷ ys) (merge-less x y xs ys e)
                (more-In x (merge xs (y ∷ ys)) (y ∷ ys) (merge-In xs (y ∷ ys)))
          | same ↦ λ e.
              same-In (y ∷ ys) (merge-same x y xs ys e)
                (inl refl, more-In y (merge xs ys) ys (merge-In xs ys))
          | more ↦ λ e.
              same-In (y ∷ ys) (merge-more x y xs ys e)
                (inl refl, more-In y (merge (x ∷ xs) ys) ys (merge-In (x ∷ xs) ys))
        ]
      refl

pub merge-Covered : (xs ys : List Entry) → All (λ x. Covered x (merge xs ys)) xs
unfolding merge
merge-Covered [] ys = tt
merge-Covered (x ∷ xs) [] =
    All-map (λ z. In z (x ∷ xs)) (λ z. Covered z (x ∷ xs)) (x ∷ xs) (λ z h. In-Covered z (x ∷ xs) h)
      (All-In (x ∷ xs))
merge-Covered (x ∷ xs) (y ∷ ys) =
    elim (entry_cmp x y)
        as (λ c. entry_cmp x y ≡ c → All (λ z. Covered z (merge (x ∷ xs) (y ∷ ys))) (x ∷ xs)) [
          | less ↦ λ e.
              same-Covered (x ∷ xs) (merge-less x y xs ys e)
                (inl (inl refl), more-Covered x (merge xs (y ∷ ys)) xs (merge-Covered xs (y ∷ ys)))
          | same ↦ λ e.
              same-Covered (x ∷ xs) (merge-same x y xs ys e)
                (inl (inr e), more-Covered y (merge xs ys) xs (merge-Covered xs ys))
          | more ↦ λ e.
              same-Covered (x ∷ xs) (merge-more x y xs ys e)
                (more-Covered y (merge (x ∷ xs) ys) (x ∷ xs) (merge-Covered (x ∷ xs) ys))
        ]
      refl
