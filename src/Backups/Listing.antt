-- ===== src/Backups/Listing.antt =====
-- `get_current_backups` and `remove_old_backups` of src/current_backups_server.c.
pub mod Ends
pub mod Order
pub mod Safe
use burp.Prelude.{
  ℕ, zero, suc, ◌+◌, ◌-◌, ◌*◌, ◌%◌, Bool, true, false, not, ◌&&◌, ◌||◌, Option, none, some, List,
  [], ◌∷◌, ◌++◌, ltb, leb, ◌==◌, if◌then◌else◌, length, take,
}
use burp.Prelude.Chars.{Bytes, codes, str_eq, c_str}
use burp.Strtoul.{strtoul}
use burp.Backups.{Bu, set_flags, Found, do_remove_old_backups}

-- `fgets` of a buffer of 32 bytes, less the newline.
line : ℕ → Bytes → Bytes
line zero s = []
line (suc n) [] = []
line (suc n) (c ∷ s) = let rest = line n s in if c == b'\n' then [] else c ∷ rest

-- The buffer behind a read, which succeeds if it is not empty. An empty file leaves in it what the
-- read before had left.
unfoldable pub read_timestamp : Option Bytes → Bytes → Bytes
unfolding line c_str
read_timestamp none buf = []
read_timestamp (some []) buf = buf
read_timestamp (some (c ∷ s)) buf = c_str (line 31 (c ∷ s))

abbrev pub is_missing : Option Bytes → Bool
is_missing none = true
is_missing (some s) = false

-- The body of the loop over the directory, with the buffer for timestamps; `none` goes on with the
-- next file.
unfoldable pub to_bu : Bytes → Bytes → Bytes → Found → Option Bu × Bytes
unfolding strtoul str_eq
to_bu realwork realfinishing buf f =
    let t = read_timestamp (if f.opens then f.timestamp else none) buf in
    if str_eq f.name (codes ".")
      || str_eq f.name (codes "..")
      || str_eq f.name realwork
      || str_eq f.name realfinishing
      || not f.is_dir
      || is_missing f.timestamp
    then (none, buf)
    else (
      elim t [
        | [] ↦ none
        | c ∷ cs ↦ some (record {
          path = f.name;
          timestamp = c ∷ cs;
          index = strtoul (c ∷ cs);
          hardlinked = f.hardlinked;
          deletable = false;
          trindex = 0;
        })
      ],
      t,
    )

unfoldable pub collect : Bytes → Bytes → Bytes → List Found → List Bu
unfolding to_bu
collect w fin buf [] = []
collect w fin buf (f ∷ fs) =
    let (o, buf') = to_bu w fin buf f in
    let rest = collect w fin buf' fs in elim o [ none ↦ rest | some b ↦ b ∷ rest ]

-- `qsort` with `bu_cmp`; equal indexes stay in their order.
pub insert : Bu → List Bu → List Bu
insert b [] = b ∷ []
insert b (x ∷ xs) = let rest = insert b xs in if leb b.index x.index then b ∷ x ∷ xs else x ∷ rest

unfoldable pub sort : List Bu → List Bu
unfolding insert
sort [] = []
sort (b ∷ bs) = insert b (sort bs)

unfoldable pub get_current_backups : Bytes → Bytes → List Found → List Bu
unfolding collect sort set_flags
get_current_backups realwork realfinishing dir =
    set_flags (sort (collect realwork realfinishing [] dir))

-- A directory that a pass deleted is no longer there.
pub has_path : Bytes → List Bu → Bool
unfolding str_eq
has_path p [] = false
has_path p (b ∷ bs) = str_eq p b.path || has_path p bs

pub without : List Bu → List Found → List Found
unfolding has_path
without del [] = []
without del (f ∷ fs) = let rest = without del fs in if has_path f.name del then rest else f ∷ rest

-- `while(1)`: a pass that deletes something is followed by another. `none` is the end of the fuel.
pub remove_loop : (Bu → Bool) → ℕ → List ℕ → Bytes → Bytes → List Found → Option (Bool × List Found)
unfolding get_current_backups do_remove_old_backups without
remove_loop removes zero keep w fin dir = none
remove_loop removes (suc f) keep w fin dir =
    let (ok, del) = do_remove_old_backups removes keep (get_current_backups w fin dir) in
    let rest = remove_loop removes f keep w fin (without del dir) in
    if not ok
    then some (false, without del dir)
    else if length del == 0
    then some (true, dir)
    else rest

-- Each pass but the last deletes a directory.
unfoldable pub remove_old_backups :
    (Bu → Bool) → List ℕ → Bytes → Bytes → List Found → Option (Bool × List Found)
unfolding remove_loop
remove_old_backups removes keep w fin dir = remove_loop removes (length dir + 1) keep w fin dir
