-- ===== src/Dpth/Scan.antt =====
-- `mk_dpth` and `set_dpth_from_string` of src/dpth.c together.
use burp.Prelude.{
  ℕ, ◌<◌, ◌≡◌, refl, Bool, true, false, not, ◌&&◌, ◌||◌, Option, none, some, [], ◌∷◌, ◌++◌, ltb,
  ◌==◌, if-cases, if◌then◌else◌, arith,
}
use burp.Prelude.Chars.{Bytes, codes}
use burp.Cmd.{cmd_efs_file}
use burp.Hex.{print_04x}
use burp.Hex.RoundTrip.{scan_04x-print, after_04x-print, print-head}
use burp.Dpth.{
  Dpth, mk_dpth, scan_part, is_tree, int_gt, scan_dpth, set_higher, set_dpth_from_string,
}

scan_part-print :
    (v : ℕ) (s : Bytes) → v < 65536 → scan_part (print_04x v ++ (b'/' ∷ s)) ≡ some (v, s)
unfolding scan_part
scan_part-print v s h =
    rw (scan_04x-print v (b'/' ∷ s) h, scan_part) (rw (after_04x-print v (b'/' ∷ s) h) refl)

-- All three numbers, whatever stands behind them.
scan_dpth-print :
    (a b c : ℕ) (s : Bytes)
    → a < 65536
    → b < 65536
    → c < 65536
    → scan_dpth (print_04x a ++ (b'/' ∷ (print_04x b ++ (b'/' ∷ (print_04x c ++ s)))))
      ≡ some (a, b, c)
unfolding scan_dpth
scan_dpth-print a b c s ha hb hc =
    rw (scan_part-print a (print_04x b ++ (b'/' ∷ (print_04x c ++ s))) ha)
      (rw (scan_part-print b (print_04x c ++ s) hb) (rw (scan_04x-print c s hc) refl))

abbrev pub Numbers : Dpth → Type 0
Numbers d = (d.prim < 65536) × (d.seco < 65536) × (d.tert < 65536)

not-tree : (v : ℕ) (s : Bytes) → v < 65536 → is_tree (print_04x v ++ s) ≡ false
not-tree v s h = let (c, t, e, l) = print-head v s h in rw e (ground arith)

int_gt_lem : (x a : ℕ) → a < 65536 → int_gt x a ≡ ltb a x
int_gt_lem x a h = ground arith

if-pair :
    (c : Bool) (x y : Dpth)
    → ◌≡◌ {A = Bool × Dpth} (if c then (true, x) else (true, y)) (true, if c then x else y)
if-pair true x y = refl
if-pair false x y = refl

-- For numbers below 65536, `set_dpth_from_string` on the path that `mk_dpth` makes of them
-- succeeds and sets the three numbers to them, unless one of them is below the number that is
-- there, and then nothing changes.
pub set-mk_dpth :
    (compression : Bool) (cmd : ℕ) (d d' : Dpth)
    → Numbers d'
    → set_dpth_from_string d (some (mk_dpth compression cmd d')) ≡ (
      true,
      if ltb d'.prim d.prim || ltb d'.seco d.seco || ltb d'.tert d.tert
          then d
          else record d { prim = d'.prim; seco = d'.seco; tert = d'.tert },
    )
unfolding set_dpth_from_string mk_dpth
set-mk_dpth compression cmd d d' h =
    let (a, b, c) = h in
    let tail = if compression && not (cmd == cmd_efs_file) then codes ".gz" else [] in
    rw (not-tree d'.prim (b'/' ∷ (print_04x d'.seco ++ (b'/' ∷ (print_04x d'.tert ++ tail)))) a) (
      rw (scan_dpth-print d'.prim d'.seco d'.tert tail a b c) (
        rw (int_gt_lem d.prim d'.prim a, int_gt_lem d.seco d'.seco b, int_gt_lem d.tert d'.tert c)
          (if-pair (ltb d'.prim d.prim || ltb d'.seco d.seco || ltb d'.tert d.tert) d
            (record d' { looped = d.looped }))))

-- The count of the loops stays as it is.
pub set-looped : (d : Dpth) (p : Option Bytes) → (set_dpth_from_string d p).1.looped ≡ d.looped
unfolding set_dpth_from_string set_higher
set-looped d none = refl
set-looped d (some p) =
    if-cases (λ (r : Bool × Dpth). r.1.looped ≡ d.looped) (is_tree p) _ _ (λ e. refl)
      (λ e. higher (scan_dpth p))
  where
    higher : (o : Option (ℕ × ℕ × ℕ)) → (set_higher d o).1.looped ≡ d.looped
    higher none = refl
    higher (some (a, b, c)) =
        if-cases (λ (r : Bool × Dpth). r.1.looped ≡ d.looped)
          (int_gt d.prim a || int_gt d.seco b || int_gt d.tert c) _ _ (λ e. refl) (λ e. refl)
