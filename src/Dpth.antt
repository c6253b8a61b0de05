-- ===== src/Dpth.antt =====
-- src/dpth.c: the names of the data files of a backup, three numbers that count up; and
-- `dpth_is_compressed` of src/handy.c.
pub mod Order
pub mod Scan
use burp.Prelude.{
  ℕ, ◌+◌, ◌-◌, ◌^◌, Bool, true, false, not, ◌&&◌, ◌||◌, Option, none, some, List, [], ◌∷◌, ◌++◌,
  ltb, leb, ◌==◌, if◌then◌else◌, ◌>>=◌,
}
use burp.Prelude.Chars.{Bytes, codes, str_eq}
use burp.Cmd.{cmd_efs_file}
use burp.Hex.{print_04x, scan_04x, after_04x}

-- `struct dpth`; `path` is what `mk_dpth` makes of the numbers.
pub record Dpth : Type 0 where
  pub prim : ℕ
  pub seco : ℕ
  pub tert : ℕ
  pub looped : ℕ

-- `mk_dpth`; the numbers have four digits each, so `snprintf` does not cut the path.
unfoldable pub mk_dpth : Bool → ℕ → Dpth → Bytes
mk_dpth compression cmd d =
    print_04x d.prim
    ++ (b'/'
        ∷ (print_04x d.seco
            ++ (b'/'
                ∷ (print_04x d.tert
                    ++ (if compression && not (cmd == cmd_efs_file) then codes ".gz" else [])))))

-- `incr_dpth`, and whether it succeeds; `max` is `max_storage_subdirs`.
unfoldable pub incr_dpth : ℕ → Dpth → Bool × Dpth
incr_dpth max d =
    if not (leb 65535 d.tert)
    then (true, record d { tert = d.tert + 1 })
    else if not (leb max d.seco)
    then (true, record d { tert = 0; seco = d.seco + 1 })
    else if not (leb max d.prim)
    then (true, record d { tert = 0; seco = 0; prim = d.prim + 1 })
    else (
      not (ltb 1 (d.looped + 1)),
      record { tert = 0; seco = 0; prim = 0; looped = d.looped + 1 },
    )

-- `get_highest_entry` of three directories, none where one cannot be opened.
unfoldable pub init_dpth : ℕ → Option ℕ → (ℕ → Option ℕ) → (ℕ → ℕ → Option ℕ) → Bool × Dpth
unfolding incr_dpth
init_dpth max prims secos terts =
    let start : Dpth = record { prim = 0; seco = 0; tert = 0; looped = 0 } in
    elim prims [
      | none ↦ (true, start)
      | some p ↦ elim (secos p) [
        | none ↦ (true, record start { prim = p })
        | some s ↦ elim (terts p s) [
          | none ↦ (true, record start { prim = p; seco = s })
          | some t ↦ incr_dpth max (record start { prim = p; seco = s; tert = t })
        ]
      ]
    ]

-- One number of `"%04X/%04X/%04X"`, and the slash behind it, where there is one.
scan_slash : Bytes → Option Bytes
scan_slash [] = none
scan_slash (c ∷ s) = if c == b'/' then some s else none

scan_part : Bytes → Option (ℕ × Bytes)
unfolding scan_slash
scan_part s = elim (scan_04x s) [
  | none ↦ none
  | some v ↦ elim (scan_slash (after_04x s)) [ none ↦ none | some s' ↦ some (v, s') ]
]

-- `sscanf` of the whole; none unless it converts three numbers.
pub scan_dpth : Bytes → Option (ℕ × ℕ × ℕ)
unfolding scan_part
scan_dpth s = do (a, s1) ← scan_part s; (b, s2) ← scan_part s1; c ← scan_04x s2; some (a, b, c)

-- `x > (int)a`, where `x` is not negative.
abbrev pub int_gt : ℕ → ℕ → Bool
int_gt x a = leb (2 ^ 31) a || ltb a x

-- "only set it if it is a higher one"; the path of a tree begins with 't'.
set_higher : Dpth → Option (ℕ × ℕ × ℕ) → Bool × Dpth
set_higher d none = (false, d)
set_higher d (some (a, b, c)) =
    if int_gt d.prim a || int_gt d.seco b || int_gt d.tert c
    then (true, d)
    else (true, record d { prim = a; seco = b; tert = c })

abbrev is_tree : Bytes → Bool
is_tree [] = false
is_tree (c ∷ s) = c == b't'

unfoldable pub set_dpth_from_string : Dpth → Option Bytes → Bool × Dpth
unfolding set_higher scan_dpth
set_dpth_from_string d none = (true, d)
set_dpth_from_string d (some p) = if is_tree p then (true, d) else set_higher d (scan_dpth p)

-- What begins at the last '.' of a string: `strrchr`.
last_dot : Bytes → Option Bytes
last_dot [] = none
last_dot (c ∷ s) = elim (last_dot s) [
  | none ↦ if c == b'.' then some (c ∷ s) else none
  | some t ↦ some t
]

-- `compressed` is an int; -1 is "not set in the manifest".
unfoldable pub dpth_is_compressed : ℕ → Bytes → ℕ
unfolding last_dot str_eq
dpth_is_compressed compressed datapath =
    if compressed == 0
    then 0
    else if ltb compressed (2 ^ 31)
    then compressed
    else elim (last_dot datapath) [ none ↦ 0 | some t ↦ if str_eq t (codes ".gz") then 1 else 0 ]
