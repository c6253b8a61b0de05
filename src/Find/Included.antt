-- ===== src/Find/Included.antt =====
-- The rule for a directory that src/find.c chooses, and the decision on a file.
use mathlib.Core.List.{append_assoc, append-nil}
use burp.Prelude.{
  ℕ, ◌<◌, ◌≤◌, ◌≡◌, refl, Bool, not, ◌&&◌, ◌||◌, Option, none, some, List, [], ◌∷◌, arith, ltb,
  if◌then◌else◌, if-cases, ◌++◌, All, All-append, All-map, ap, ◌∙◌,
}
use burp.Prelude.Chars.{Bytes}
use burp.Path.{is_subdir}
use burp.Find.{
  Strlist, best_rule, set_max_ext, is_nil, in_exclude_regex, file_is_included_no_incext,
  file_is_included,
}
use burp.Find.Extension.{ext_in, exts-extension}

-- How closely a rule matches.
pub matching : Bytes → Strlist → ℕ
matching fname x = is_subdir (some x.path) (some fname)

-- The rule `x` is the first of those that match most closely.
pub record IsBest (fname : Bytes) (list : List Strlist) (x : Strlist) : Type 0 where
  pub before : List Strlist
  pub after : List Strlist
  pub place : list ≡ before ++ (x ∷ after)
  pub matches : 0 < matching fname x
  pub closer : All (λ y. matching fname y < matching fname x) before
  pub as_close : All (λ y. matching fname y ≤ matching fname x) after

-- What the rules for directories say of a file: nothing matches it, or the best rule holds.
pub data Decides (fname : Bytes) (list : List Strlist) : ℕ → Type 0 where
  no_rule : All (λ y. matching fname y ≤ 0) list → Decides fname list 0
  rule : (x : Strlist) → IsBest fname list x → Decides fname list x.flag

-- The state of the loop behind the rules `list`.
abbrev Chosen : Bytes → List Strlist → ℕ → Option Strlist → Type 0
Chosen fname list n none = (n ≡ 0) × All (λ y. matching fname y ≤ 0) list
Chosen fname list n (some x) = (n ≡ matching fname x) × IsBest fname list x

-- The loop goes past the rule `x`.
past :
    (fname : Bytes) (list : List Strlist) (n : ℕ) (o : Option Strlist) (x : Strlist)
    → Chosen fname list n o
    → matching fname x ≤ n
    → Chosen fname (list ++ (x ∷ [])) n o
past fname list n none x (e, h) l = (e, All-append _ list _ h (omega (arith, e), tt))
past fname list n (some y) x (e, b) l = (
  e,
  record {
    before = b.before;
    after = b.after ++ (x ∷ []);
    place = ap (λ z. z ++ (x ∷ [])) b.place ∙ append_assoc b.before (y ∷ b.after) (x ∷ []);
    matches = b.matches;
    closer = b.closer;
    as_close = All-append _ b.after _ b.as_close (omega (arith, e), tt);
  },
)

below :
    (fname : Bytes) (list : List Strlist) (n m : ℕ) (o : Option Strlist)
    → Chosen fname list n o
    → n < m
    → All (λ y. matching fname y < m) list
below fname list n m none (e, h) l = All-map _ _ list (λ y p. omega arith) h
below fname list n m (some x) (e, b) l = rw b.place (
    All-append _ b.before (x ∷ b.after) (All-map _ _ b.before (λ y p. omega arith) b.closer)
      (omega arith, All-map _ _ b.after (λ y p. omega arith) b.as_close))

-- The loop takes the rule `x`.
taken :
    (fname : Bytes) (list : List Strlist) (n : ℕ) (o : Option Strlist) (x : Strlist)
    → Chosen fname list n o
    → n < matching fname x
    → Chosen fname (list ++ (x ∷ [])) (matching fname x) (some x)
taken fname list n o x h l = (
  refl,
  record {
    before = list;
    after = [];
    place = refl;
    matches = omega arith;
    closer = below fname list n (matching fname x) o h l;
    as_close = tt;
  },
)

flag_of : Option Strlist → ℕ
flag_of none = 0
flag_of (some x) = x.flag

Chosen-Decides :
    (fname : Bytes) (list : List Strlist) (n : ℕ) (o : Option Strlist)
    → Chosen fname list n o
    → Decides fname list (flag_of o)
unfolding flag_of
Chosen-Decides fname list n none (e, h) = no_rule h
Chosen-Decides fname list n (some x) (e, b) = rule x b

best_rule-Decides :
    (done list : List Strlist) (fname : Bytes) (n : ℕ) (o : Option Strlist)
    → Chosen fname done n o
    → Decides fname (done ++ list) (flag_of (best_rule list fname n o))
unfolding best_rule matching
best_rule-Decides done [] fname n o h = rw (append-nil done) (Chosen-Decides fname done n o h)
best_rule-Decides done (x ∷ list) fname n o h = rw⁻¹ (append_assoc done (x ∷ []) list) (
    if-cases (λ r. Decides fname ((done ++ (x ∷ [])) ++ list) (flag_of r))
      (ltb n (matching fname x)) _ _
      (λ l.
        best_rule-Decides (done ++ (x ∷ [])) list fname (matching fname x) (some x)
          (taken fname done n o x h (ground arith)))
      (λ l.
        best_rule-Decides (done ++ (x ∷ [])) list fname n o
          (past fname done n o x h (ground arith))))

module _ {Regex : Type 0} (check_regex : Regex → Bytes → Bool) where
  -- With the limits of `set_max_ext`, `file_is_included` returns 0 for a file whose extension or
  -- name is excluded, or whose extension is not included and which is not a top level directory;
  -- for another the flag of the first of the rules that match it most closely, as `is_subdir`
  -- counts, and 0 if none matches.
  pub file_is_included-Decides :
      (ielist incext excext : List Strlist) (excreg : List Regex) (fname : Bytes) (top_level : Bool)
      → (n : ℕ) × Decides fname ielist n
        × (file_is_included check_regex ielist
              (set_max_ext incext)
              (set_max_ext excext)
              excreg
              fname
              top_level
            ≡ (if (top_level || (is_nil incext || ext_in incext fname))
                  && not (ext_in excext fname)
                  && not (in_exclude_regex check_regex excreg fname)
                then n
                else 0))
  unfolding flag_of
  file_is_included-Decides ielist incext excext excreg fname top_level =
      let i = exts-extension incext fname 0 in
      let e = exts-extension excext fname 0 in
      (
        flag_of (best_rule ielist fname 0 none),
        best_rule-Decides [] ielist fname 0 none (refl, tt),
        unfold file_is_included in
            unfold file_is_included_no_incext in
            rw (i.0, e.1)
              (decide top_level (is_nil incext || ext_in incext fname) (ext_in excext fname)
                (in_exclude_regex check_regex excreg fname) (best_rule ielist fname 0 none)),
      )
    where
      decide :
          (top inc ext reg : Bool) (o : Option Strlist)
          → (if not top && not inc
              then 0
              else if ext || reg
              then 0
              else elim o [ none ↦ 0 | some x ↦ x.flag ])
            ≡ (if (top || inc) && not ext && not reg then flag_of o else 0)
      decide top inc ext reg none = ground arith
      decide top inc ext reg (some x) = ground arith
