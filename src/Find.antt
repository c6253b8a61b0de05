-- ===== src/Find.antt =====
-- The include and exclude rules of src/find.c, with `set_max_ext` of src/conf.c. What the regular
-- expressions of a rule match is a parameter.
pub mod Extension
pub mod Included
use burp.Prelude.{
  ℕ, zero, suc, ◌+◌, Bool, true, false, not, ◌&&◌, ◌||◌, Option, none, some, List, [], ◌∷◌, ltb,
  leb, ◌==◌, if◌then◌else◌, length,
}
use burp.Prelude.Chars.{Bytes, str_eq}
use burp.Path.{is_subdir}

-- `struct strlist`, without the compiled expression. The flags of the code are not negative.
pub record Strlist : Type 0 where
  pub path : Bytes
  pub flag : ℕ

-- `strlen` of the longest path.
abbrev pub longest_path : List Strlist → ℕ → ℕ
longest_path [] max = max
longest_path (x ∷ list) max =
    longest_path list (if ltb max (length x.path) then length x.path else max)

-- "Set the flag of the first item in a list that looks at extensions to the maximum number of
-- characters that need to be checked, plus one."
unfoldable pub set_max_ext : List Strlist → List Strlist
set_max_ext [] = []
set_max_ext (x ∷ list) = record x { flag = longest_path (x ∷ list) 0 + 1 } ∷ list

abbrev pub lower : ℕ → ℕ
lower c = if leb 65 c && leb c 90 then c + 32 else c

-- `!strcasecmp(a, b)`
unfoldable pub str_caseeq : Bytes → Bytes → Bool
str_caseeq [] [] = true
str_caseeq (x ∷ a) (y ∷ b) = lower x == lower y && str_caseeq a b
str_caseeq _ _ = false

-- A string from its end, where the loops begin.
abbrev pub backwards : Bytes → Bytes → Bytes
backwards [] acc = acc
backwards (c ∷ s) acc = backwards s (c ∷ acc)

-- The loop over the last characters of a name: what stands behind the '.', if one is found. `acc` is
-- what was passed.
unfoldable pub behind_dot : ℕ → Bytes → Bytes → Option Bytes
behind_dot zero back acc = none
behind_dot (suc n) [] acc = none
behind_dot (suc n) (c ∷ back) acc =
    let rest = behind_dot n back (c ∷ acc) in if c == b'.' then some acc else rest

-- The inner loop.
abbrev pub in_list : List Strlist → Bytes → Bool
in_list [] e = false
in_list (x ∷ list) e = str_caseeq x.path e || in_list list e

abbrev pub ext_limit : List Strlist → ℕ
ext_limit [] = 0
ext_limit (x ∷ list) = x.flag

unfoldable pub found_ext : List Strlist → Bytes → Option Bytes
unfolding behind_dot
found_ext list fname = behind_dot (ext_limit list) (backwards fname []) []

abbrev pub is_nil : List Strlist → Bool
is_nil [] = true
is_nil (x ∷ list) = false

unfoldable pub in_include_ext : List Strlist → Bytes → Bool
unfolding found_ext
in_include_ext incext fname =
    if is_nil incext
    then true
    else elim (found_ext incext fname) [ none ↦ false | some e ↦ in_list incext e ]

unfoldable pub in_exclude_ext : List Strlist → Bytes → Bool
unfolding found_ext
in_exclude_ext excext fname =
    if is_nil excext
    then false
    else elim (found_ext excext fname) [ none ↦ false | some e ↦ in_list excext e ]

-- "Returns the level of compression."
unfoldable pub in_exclude_comp : List Strlist → Bytes → ℕ → ℕ
unfolding found_ext
in_exclude_comp excom fname compression =
    if compression == 0 || is_nil excom then compression else elim (found_ext excom fname) [
      | none ↦ compression
      | some e ↦ if in_list excom e then 0 else compression
    ]

-- The loop over the directories: the longest match so far, and the flag of its rule.
pub best_rule : List Strlist → Bytes → ℕ → Option Strlist → Option Strlist
best_rule [] fname longest best = best
best_rule (x ∷ list) fname longest best =
    let matching = is_subdir (some x.path) (some fname) in
    if ltb longest matching
    then best_rule list fname matching (some x)
    else best_rule list fname longest best

module _ {Regex : Type 0} (check_regex : Regex → Bytes → Bool) where
  -- `in_include_regex` is not used by the code.
  pub matches_any : List Regex → Bytes → Bool
  matches_any [] fname = false
  matches_any (re ∷ list) fname = check_regex re fname || matches_any list fname

  unfoldable pub in_include_regex : List Regex → Bytes → Bool
  unfolding matches_any
  in_include_regex [] fname = true
  in_include_regex (re ∷ list) fname = matches_any (re ∷ list) fname

  unfoldable pub in_exclude_regex : List Regex → Bytes → Bool
  unfolding matches_any
  in_exclude_regex list fname = matches_any list fname

  -- "When recursing into directories, do not want to check the include_ext list."
  unfoldable pub file_is_included_no_incext : List Strlist → List Strlist → List Regex → Bytes → ℕ
  unfolding best_rule
  file_is_included_no_incext ielist excext excreg fname =
      if in_exclude_ext excext fname || in_exclude_regex excreg fname
      then 0
      else elim (best_rule ielist fname 0 none) [ none ↦ 0 | some x ↦ x.flag ]

  -- "Always save the top level directory."
  unfoldable pub file_is_included :
      List Strlist → List Strlist → List Strlist → List Regex → Bytes → Bool → ℕ
  file_is_included ielist incext excext excreg fname top_level =
      if not top_level && not (in_include_ext incext fname)
      then 0
      else file_is_included_no_incext ielist excext excreg fname

-- The tests of a path against a list of the configuration.
abbrev pub path_in : List Strlist → Bytes → Bool
path_in [] fname = false
path_in (x ∷ list) fname = str_eq x.path fname || path_in list fname

unfoldable pub fs_change_is_allowed : Bool → List Strlist → Bytes → Bool
fs_change_is_allowed cross_all_filesystems fschgdir fname =
    cross_all_filesystems || path_in fschgdir fname

unfoldable pub need_to_read_fifo : Bool → List Strlist → Bytes → Bool
need_to_read_fifo read_all_fifos fifos fname = read_all_fifos || path_in fifos fname

unfoldable pub need_to_read_blockdev : Bool → List Strlist → Bytes → Bool
need_to_read_blockdev read_all_blockdevs blockdevs fname =
    read_all_blockdevs || path_in blockdevs fname

-- "If the user specified a minimum or maximum file size, obey it."
unfoldable pub size_is_allowed : ℕ → ℕ → ℕ → Bool
size_is_allowed min_file_size max_file_size sizeleft =
    not (not (min_file_size == 0) && ltb sizeleft min_file_size)
    && not (not (max_file_size == 0) && ltb max_file_size sizeleft)
