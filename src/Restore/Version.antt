-- ===== src/Restore/Version.antt =====
-- The version of a file that src/restore_server.c restores.
use burp.Prelude.{◌≡◌, refl, Bool, Option, none, some, List, [], ◌∷◌, if◌then◌else◌}
use burp.Prelude.Chars.{Bytes}
use burp.Phase4.Jiggle.{Librsync}
use burp.Restore.{Store, go_up, Sent, as_it_is, zipped}

module _ (lib : Librsync) (compressed : Bool) where
  -- What stands in a file that is stored.
  unfoldable pub plain : Bytes → Option Bytes
  plain [] = some []
  plain (c ∷ f) = if compressed then lib.inflate (c ∷ f) else some (c ∷ f)

  -- What the client makes of what it is sent.
  unfoldable pub received : Option Sent → Option Bytes
  unfolding plain
  received none = none
  received (some (zipped c)) = some c
  received (some (as_it_is f)) = plain f

  -- A version brought back by a delta, if there is one.
  unfoldable pub back : Option Bytes → Option Bytes → Option Bytes
  back d none = none
  back none (some v) = some v
  back (some d) (some v) = lib.patch v d

  -- The version of a file in the first of these backups: what its data are, or what its delta makes
  -- of the version in the next.
  unfoldable pub version : List Store → Option Bytes
  unfolding plain back
  version [] = none
  version (b ∷ arr) =
      let next = version arr in
      elim b.data_file [ some f ↦ plain f | none ↦ back b.delta_file next ]

  unfoldable pub brought_back : List Store → Option Bytes → Option Bytes
  unfolding back
  brought_back [] v = v
  brought_back (b ∷ down) v = brought_back down (back b.delta_file v)

  pub brought_none : (down : List Store) → brought_back down none ≡ none
  unfolding brought_back back
  brought_none [] = refl
  brought_none (b ∷ down) = brought_none down

  abbrev pub above : Option (Bytes × List Store) → Option Bytes
  above none = none
  above (some (f, down)) = brought_back down (plain f)

  pub version-up :
      (arr passed : List Store) → brought_back passed (version arr) ≡ above (go_up arr passed)
  unfolding version go_up brought_back
  version-up [] passed = brought_none passed
  version-up (b ∷ arr) passed = by b.data_file (version-up arr (b ∷ passed))
    where
      by :
          (o : Option Bytes)
          → brought_back passed (back b.delta_file (version arr)) ≡ above (go_up arr (b ∷ passed))
          → brought_back passed
              (elim o [ some f ↦ plain f | none ↦ back b.delta_file (version arr) ])
            ≡ above (elim o [ some f ↦ some (f, passed) | none ↦ go_up arr (b ∷ passed) ])
      by none next = next
      by (some f) next = refl
