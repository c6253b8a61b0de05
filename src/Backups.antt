-- ===== src/Backups.antt =====
-- src/current_backups_server.c: the list of the backups of a client, and the removal of old ones.
-- An `unsigned long` has 64 bits, an `int` 32.
pub mod Listing
pub mod Tree
pub mod Removal
use burp.Prelude.{
  ℕ, zero, suc, ◌+◌, ◌-◌, ◌*◌, ◌/◌, ◌%◌, ◌^◌, Bool, true, false, not, ◌&&◌, ◌||◌, Option, none,
  some, List, [], ◌∷◌, ◌++◌, ltb, leb, ◌==◌, if◌then◌else◌, length,
}
use burp.Prelude.Chars.{Bytes}

abbrev pub ulong_mod : ℕ
ulong_mod = 2 ^ 64

-- `struct bu`; the paths below the one of the backup are not kept, nor are the two fields that
-- only a restore uses.
pub record Bu : Type 0 where
  pub path : Bytes
  pub timestamp : Bytes
  pub index : ℕ
  pub hardlinked : Bool
  pub deletable : Bool
  pub trindex : ℕ

-- `i-1` is the last index of the array: `last d xs` is its element, or `d`.
abbrev pub last : Bu → List Bu → Bu
last d [] = d
last d (x ∷ xs) = last x xs

-- "Backups that come after hardlinked backups are deletable."
pub mark_after : Bool → List Bu → List Bu
mark_after h [] = []
mark_after h (x ∷ xs) = record x { deletable = x.deletable || h } ∷ mark_after x.hardlinked xs

-- An `unsigned long` in the `int` `tr`, and back.
abbrev pub to_int : ℕ → ℕ
to_int n = if ltb (n % 2 ^ 32) (2 ^ 31) then n % 2 ^ 32 else n % 2 ^ 32 + (2 ^ 64 - 2 ^ 32)

pub transpose : ℕ → List Bu → List Bu
transpose tr [] = []
transpose tr (x ∷ xs) =
    record x { trindex = (tr + (ulong_mod - x.index % ulong_mod) + 1) % ulong_mod }
    ∷ transpose tr xs

-- The end of `get_current_backups`, on the sorted array.
unfoldable pub set_flags : List Bu → List Bu
unfolding mark_after transpose
set_flags [] = []
set_flags (x ∷ []) = x ∷ []
set_flags (x ∷ y ∷ xs) =
    let tr = to_int (last y xs).index in
    let marked = mark_after false (record x { deletable = true } ∷ y ∷ xs) in
    if not (tr == 0) then transpose tr marked else marked

-- The files that `get_current_backups` finds in the directory of a client: the name, whether it is
-- a directory or cannot be looked at, the contents of the regular file "timestamp" in it, whether
-- "hardlinked" is there, and whether the timestamp can be opened.
pub record Found : Type 0 where
  pub name : Bytes
  pub is_dir : Bool
  pub timestamp : Option Bytes
  pub hardlinked : Bool
  pub opens : Bool

abbrev pub in_range : ℕ → ℕ → Bu → Bool
in_range s r b = ltb s b.trindex && leb b.trindex r

-- Count the backups in the range.
pub count_range : ℕ → ℕ → List Bu → ℕ
count_range s r [] = 0
count_range s r (b ∷ bs) =
    let rest = count_range s r bs in if in_range s r b then rest + 1 else rest

abbrev pub reverse_onto : List Bu → List Bu → List Bu
reverse_onto acc [] = acc
reverse_onto acc (b ∷ bs) = reverse_onto (b ∷ acc) bs

-- "Remove the very oldest backups": from the first that is older than `m`, back to the first.
pub oldest : ℕ → List Bu → List Bu → List Bu
oldest m acc [] = []
oldest m acc (b ∷ bs) =
    let rest = oldest m (b ∷ acc) bs in if ltb m b.trindex then b ∷ acc else rest

-- What deleting a backup does depends on the file system: `removes` says of which it succeeds.
-- The state of a pass is the backups that it deleted.
module _ (removes : Bu → Bool) where
  -- "Try to delete from the most recent in each": `bs` is the array from its end. Of the `count`
  -- backups in the range one is left.
  pub thin : ℕ → ℕ → ℕ → List Bu → List Bu → Bool × List Bu
  thin s r count [] del = (true, del)
  thin s r count (b ∷ bs) del =
      let next = thin s r (count - 1) bs (del ++ b ∷ []) in
      let rest = thin s r count bs del in
      if in_range s r b && b.deletable
      then (if not (removes b)
          then (false, del)
          else if leb (count - 1) 1
          then (true, del ++ b ∷ [])
          else next)
      else rest

  -- "This is going over each range": `for(r=upto; r>n; r-=n)`. Here `n` is positive, so a round for
  -- each number below `r` is enough.
  pub ranges : ℕ → ℕ → ℕ → List Bu → List Bu → Bool × List Bu
  unfolding count_range thin
  ranges zero n r arr del = (true, del)
  ranges (suc f) n r arr del =
      let s = r - n in
      let (ok, del') =
        if ltb 1 (count_range s r arr)
        then thin s r (count_range s r arr) (reverse_onto [] arr) del
        else (true, del) in
      let rest = ranges f n s arr del' in
      if not (ltb n r) then (true, del) else if not ok then (false, del') else rest

  -- The loop over the `keep` values; `m` is the product of those before.
  pub keeps : ℕ → List ℕ → List Bu → List Bu → Bool × ℕ × List Bu
  unfolding ranges
  keeps m [] arr del = (true, m, del)
  keeps m (k ∷ []) arr del = (true, m * k % ulong_mod, del)
  keeps m (k ∷ k' ∷ ks) arr del =
      let n = m * k % ulong_mod in
      let upto = n * k' % ulong_mod in
      let (ok, del') = ranges upto n upto arr del in
      let rest = keeps n (k' ∷ ks) arr del' in if not ok then (false, n, del') else rest

  pub delete_all : List Bu → List Bu → Bool × List Bu
  delete_all [] del = (true, del)
  delete_all (b ∷ bs) del =
      let rest = delete_all bs (del ++ b ∷ []) in if not (removes b) then (false, del) else rest

  -- One pass on the array: whether it succeeds, and what it deletes.
  unfoldable pub do_remove_old_backups : List ℕ → List Bu → Bool × List Bu
  unfolding keeps oldest delete_all
  do_remove_old_backups keep arr =
      let (ok, m, del) = keeps 1 keep arr [] in
      if not ok then (false, del) else delete_all (oldest m [] arr) del
