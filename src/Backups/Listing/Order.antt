-- ===== src/Backups/Listing/Order.antt =====
-- The array of `get_current_backups` of src/current_backups_server.c before it is flagged.
use burp.Prelude.{
  ◌≤◌, ◌≡◌, refl, true, false, none, some, List, [], ◌∷◌, leb, if◌then◌else◌, All, All-map, arith,
}
use burp.Prelude.Chars.{Bytes}
use burp.Backups.{Bu, Found}
use burp.Backups.Removal.Deletable.{Fresh, Sorted}
use burp.Backups.Listing.{to_bu, collect, insert, sort}

pub insert-All : (P : Bu → Type 0) (b : Bu) (xs : List Bu) → P b → All P xs → All P (insert b xs)
unfolding insert
insert-All P b [] p h = (p, tt)
insert-All P b (x ∷ xs) p h =
    elim (leb b.index x.index) as (λ c. All P (if c then b ∷ x ∷ xs else x ∷ insert b xs)) [
      | true ↦ (p, h)
      | false ↦ (h.0, insert-All P b xs p h.1)
    ]

pub sort-All : (P : Bu → Type 0) (xs : List Bu) → All P xs → All P (sort xs)
unfolding sort
sort-All P [] h = tt
sort-All P (x ∷ xs) h = insert-All P x (sort xs) h.0 (sort-All P xs h.1)

insert-Sorted : (b : Bu) (xs : List Bu) → Sorted xs → Sorted (insert b xs)
unfolding insert
insert-Sorted b [] h = (tt, tt)
insert-Sorted b (x ∷ xs) h =
    elim (leb b.index x.index)
        as (λ c. leb b.index x.index ≡ c → Sorted (if c then b ∷ x ∷ xs else x ∷ insert b xs)) [
          | true ↦ λ e.
              let l : b.index ≤ x.index = ground arith in
              (
                (
                  l,
                  All-map (λ y. x.index ≤ y.index) (λ y. b.index ≤ y.index) xs (λ y i. omega arith)
                      h.0,
                ),
                h,
              )
          | false ↦ λ e.
              let l : x.index ≤ b.index = ground arith in
              (insert-All (λ y. x.index ≤ y.index) b xs l h.0, insert-Sorted b xs h.1)
        ]
      refl

pub sort-Sorted : (xs : List Bu) → Sorted (sort xs)
unfolding sort
sort-Sorted [] = tt
sort-Sorted (x ∷ xs) = insert-Sorted x (sort xs) (sort-Sorted xs)

pub to_bu-Found :
    (w fin buf : Bytes) (f : Found) (b : Bu)
    → (to_bu w fin buf f).0 ≡ some b
    → (b.path ≡ f.name) × Fresh b
unfolding to_bu
to_bu-Found w fin buf f b e = ground arith

pub collect-Fresh : (w fin buf : Bytes) (dir : List Found) → All Fresh (collect w fin buf dir)
unfolding collect
collect-Fresh w fin buf [] = tt
collect-Fresh w fin buf (f ∷ fs) =
    let rest = collect-Fresh w fin (to_bu w fin buf f).1 fs in
    elim (to_bu w fin buf f).0
        as (λ o.
          (to_bu w fin buf f).0 ≡ o
          → All Fresh (elim o [
            | none ↦ collect w fin (to_bu w fin buf f).1 fs
            | some b ↦ b ∷ collect w fin (to_bu w fin buf f).1 fs
          ])) [ none ↦ λ e. rest | some b ↦ λ e. ((to_bu-Found w fin buf f b e).1, rest) ]
      refl
