-- ===== src/Tests/Restored.antt =====
-- A file with two reverse deltas, restored.
use burp.Prelude.{◌≡◌, refl, false, none, some, List, [], ◌∷◌, ◌++◌}
use burp.Prelude.Chars.{Bytes, codes}
use burp.Cmd.{cmd_file}
use burp.Msg.{done, failed}
use burp.Phase4.Jiggle.{Librsync}
use burp.Restore.{Store, go_up, restore_file}
use burp.Restore.Down.{works}
use burp.Restore.Version.{received, version, plain, back}
use burp.Restore.Sends.{restore_file-version, restore_file-stuck}

-- A delta is what it puts at the end; nothing is really compressed.
abbrev appends : Librsync
appends = record {
  inflate = λ s. some s;
  patch = λ s d. some (s ++ d);
  signature = λ s. some s;
  delta = λ s d. none;
}

abbrev whole : Bytes → Bytes
whole s = s

abbrev newest : Store
newest = record { data_file = some (codes "new"); delta_file = none }

abbrev reverse : Bytes → Store
reverse d = record { data_file = none; delta_file = some d }

abbrev two_deltas : List Store
two_deltas = reverse (codes "er") ∷ reverse (codes "new") ∷ newest ∷ []

two_deltas-version : version appends false two_deltas ≡ some (codes "newnewer")
unfolding version plain back
two_deltas-version = refl

restore_file-version_example :
    ((restore_file appends
        (works whole)
        false
        cmd_file
        two_deltas
        (record { one = none; two = none })).0
      ≡ done)
    × (received appends false
          (restore_file appends
            (works whole)
            false
            cmd_file
            two_deltas
            (record { one = none; two = none })).1
        ≡ some (codes "newnewer"))
restore_file-version_example =
    restore_file-version appends false whole cmd_file two_deltas none (codes "newnewer") refl
      two_deltas-version

-- The first temporary file stays behind.
two_deltas-left :
    (restore_file appends
      (works whole)
      false
      cmd_file
      two_deltas
      (record { one = none; two = none })).2
    ≡ record { one = some (codes "newnewer"); two = none }
unfolding restore_file go_up
two_deltas-left = refl

abbrev one_delta : List Store
one_delta = reverse (codes "er") ∷ newest ∷ []

one_delta-found : go_up one_delta [] ≡ some (codes "new", reverse (codes "er") ∷ [])
unfolding go_up
one_delta-found = refl

restore_file-stuck_example :
    restore_file appends
      (works whole)
      false
      cmd_file
      one_delta
      (record { one = some (codes "newnewer"); two = none })
    ≡ (failed, none, record { one = some (codes "newnewer"); two = none })
restore_file-stuck_example =
    restore_file-stuck appends false (works whole) cmd_file one_delta (codes "newnewer") none
      (codes "new") (reverse (codes "er")) [] (codes "er") refl one_delta-found refl
