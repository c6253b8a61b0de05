-- ===== src/Dpth/Order.antt =====
-- The order in which `incr_dpth` of src/dpth.c goes through the names.
use native.Mathlib.Nat.{add-mul, zero-mul}
use burp.Prelude.{
  ℕ, suc, ◌+◌, ◌*◌, ◌≤◌, ◌≡◌, refl, Bool, true, not, ◌⊎◌, inl, inr, ◌==◌, leb, arith, if-cases,
}
use burp.Dpth.{Dpth, incr_dpth}

-- The numbers are within the bounds that `incr_dpth` keeps.
pub record InRange (max : ℕ) (d : Dpth) : Type 0 where
  pub prim_le : d.prim ≤ max
  pub seco_le : d.seco ≤ max
  pub tert_le : d.tert ≤ 65535

-- The place of a name among all names: `stride` of the second number for each of the first.
pub place : ℕ → Dpth → ℕ
place max d = (d.prim * (max + 1) + d.seco) * 65536 + d.tert

-- `incr_dpth` keeps the first two numbers at most `max_storage_subdirs` and the third at most
-- 0xFFFF.
pub incr-InRange : (max : ℕ) (d : Dpth) → InRange max d → InRange max (incr_dpth max d).1
unfolding incr_dpth
incr-InRange max d h =
    let a = h.prim_le in
    let b = h.seco_le in
    let c = h.tert_le in
    record { prim_le = ground arith; seco_le = ground arith; tert_le = ground arith }

-- The last name of all.
pub IsLast : ℕ → Dpth → Type 0
IsLast max d = (d.prim ≡ max) × (d.seco ≡ max) × (d.tert ≡ 65535)

abbrev pub Steps : ℕ → Dpth → Bool × Dpth → Type 0
Steps max d (ok, d') =
    (ok ≡ true) × (d'.looped ≡ d.looped) × (place max d' ≡ place max d + 1) × InRange max d'

abbrev pub Wraps : ℕ → Dpth → Bool × Dpth → Type 0
Wraps max d (ok, d') =
    IsLast max d
    × (ok ≡ (d.looped == 0))
    × (place max d' ≡ 0)
    × (d'.looped ≡ d.looped + 1)
    × InRange max d'

-- On numbers within the bounds (the first two at most `max_storage_subdirs`, the third at most
-- 0xFFFF), `incr_dpth` stays within them; it succeeds, keeps `looped`, and goes to the very next
-- name in the order of the three numbers; only from the last name of all it begins again at the
-- first and counts a loop, and then it succeeds exactly if that was the first.
pub incr-Steps :
    (max : ℕ) (d : Dpth)
    → InRange max d
    → Steps max d (incr_dpth max d) ⊎ Wraps max d (incr_dpth max d)
unfolding incr_dpth place IsLast
incr-Steps max d h =
    let a = h.prim_le in
    let b = h.seco_le in
    let c = h.tert_le in
    let e : (d.prim + 1) * (max + 1) ≡ d.prim * (max + 1) + (max + 1) =
      omega (arith, add-mul d.prim 1 (max + 1)) in
    let P : Bool × Dpth → Type 0 = λ r. Steps max d r ⊎ Wraps max d r in
    if-cases P (not (leb 65535 d.tert)) _ _
      (λ f. inl (
        refl,
        refl,
        omega arith,
        record { prim_le = ground arith; seco_le = ground arith; tert_le = ground arith },
      ))
      (λ f.
        if-cases P (not (leb max d.seco)) _ _
          (λ g.
            let t : d.tert ≡ 65535 = ground arith in
            let s : (d.seco + 1) ≡ suc d.seco = omega arith in
            inl (
              refl,
              refl,
              omega arith,
              record { prim_le = ground arith; seco_le = ground arith; tert_le = ground arith },
            ))
          (λ g.
            if-cases P (not (leb max d.prim)) _ _
              (λ k.
                let t : d.tert ≡ 65535 = ground arith in
                let s : d.seco ≡ max = ground arith in
                inl (
                  refl,
                  refl,
                  omega arith,
                  record { prim_le = ground arith; seco_le = ground arith; tert_le = ground arith },
                ))
              (λ k.
                let t : d.tert ≡ 65535 = ground arith in
                let s : d.seco ≡ max = ground arith in
                let p : d.prim ≡ max = ground arith in
                inr (
                  (p, s, t),
                  ground arith,
                  omega (arith, zero-mul (max + 1)),
                  refl,
                  record { prim_le = ground arith; seco_le = ground arith; tert_le = ground arith },
                ))))
