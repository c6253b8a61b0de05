-- ===== src/Tests/Rules.antt =====
-- The include rules on a small configuration.
use burp.Prelude.{ℕ, ◌≡◌, refl, Bool, true, false, not, ◌&&◌, ◌||◌, List, [], ◌∷◌, if◌then◌else◌}
use burp.Prelude.Chars.{Bytes, codes, str_eq}
use burp.Find.{
  Strlist, set_max_ext, is_nil, in_include_ext, in_exclude_ext, in_exclude_comp, in_exclude_regex,
  file_is_included, file_is_included_no_incext, found_ext, behind_dot, str_caseeq,
}
use burp.Path.{is_subdir}
use burp.Find.Extension.{ext_in, exts-extension}
use burp.Find.Included.{Decides, file_is_included-Decides}

abbrev home_rule : Strlist
home_rule = record { path = codes "/home"; flag = 1 }

abbrev cache_rule : Strlist
cache_rule = record { path = codes "/home/cache"; flag = 0 }

abbrev rules : List Strlist
rules = home_rule ∷ cache_rule ∷ []

abbrev exts : List Strlist
exts = record { path = codes "ISO"; flag = 0 } ∷ record { path = codes "gz"; flag = 0 } ∷ []

-- A list of names in the place of a list of expressions.
abbrev names : Bytes → Bytes → Bool
names re fname = str_eq re fname

exts-extension_example :
    (in_include_ext (set_max_ext exts) (codes "/home/disk.iso")
      ≡ is_nil exts || ext_in exts (codes "/home/disk.iso"))
    × (in_exclude_ext (set_max_ext exts) (codes "/home/disk.iso")
        ≡ ext_in exts (codes "/home/disk.iso"))
    × (in_exclude_comp (set_max_ext exts) (codes "/home/disk.iso") 9
        ≡ (if ext_in exts (codes "/home/disk.iso") then 0 else 9))
exts-extension_example = exts-extension exts (codes "/home/disk.iso") 9

file_is_included-Decides_example :
    (n : ℕ) × Decides (codes "/home/cache/a") rules n
    × (file_is_included names rules
          (set_max_ext [])
          (set_max_ext exts)
          (codes "/tmp" ∷ [])
          (codes "/home/cache/a")
          false
        ≡ (if (false || (is_nil [] || ext_in [] (codes "/home/cache/a")))
              && not (ext_in exts (codes "/home/cache/a"))
              && not (in_exclude_regex names (codes "/tmp" ∷ []) (codes "/home/cache/a"))
            then n
            else 0))
file_is_included-Decides_example =
    file_is_included-Decides names rules [] exts (codes "/tmp" ∷ []) (codes "/home/cache/a") false

found_iso : in_exclude_ext (set_max_ext exts) (codes "/home/disk.iso") ≡ true
unfolding in_exclude_ext set_max_ext found_ext behind_dot str_caseeq
found_iso = refl

cache_left_out : file_is_included names rules [] exts [] (codes "/home/cache/a") false ≡ 0
unfolding file_is_included in_include_ext file_is_included_no_incext in_exclude_ext in_exclude_regex
    is_subdir
cache_left_out = refl
