-- ===== src/Find/Extension.antt =====
-- The extension of a name, and the lists of extensions in src/find.c.
use burp.Prelude.{
  ℕ, zero, suc, ◌+◌, ◌<◌, ◌≤◌, ◌≡◌, refl, ap, sym, ◌∙◌, Bool, true, false, ◌&&◌, ◌||◌, Option, none,
  some, List, [], ◌∷◌, arith, ltb, ◌==◌, if◌then◌else◌, if-cases, Bool-cases, inl, inr, length,
}
use burp.Prelude.Chars.{Bytes}
use burp.Find.{
  Strlist, longest_path, set_max_ext, lower, str_caseeq, backwards, behind_dot, in_list, ext_limit,
  found_ext, is_nil, in_include_ext, in_exclude_ext, in_exclude_comp,
}

-- What stands behind the last '.' of a name.
unfoldable pub extension : Bytes → Option Bytes
extension [] = none
extension (c ∷ s) = elim (extension s) [
  | some e ↦ some e
  | none ↦ if c == b'.' then some s else none
]

-- The extension, where it is shorter than the limit.
abbrev shorter : ℕ → Option Bytes → Option Bytes
shorter limit none = none
shorter limit (some e) = if ltb (length e) limit then some e else none

extension-backwards :
    (back acc : Bytes) {e : Bytes}
    → extension acc ≡ some e
    → extension (backwards back acc) ≡ some e
extension-backwards [] acc h = h
extension-backwards (c ∷ back) acc h =
    extension-backwards back (c ∷ acc) (unfold extension in rw h refl)

extension-no_dot :
    (c : ℕ) (acc : Bytes) → extension acc ≡ none → (c == b'.') ≡ false → extension (c ∷ acc) ≡ none
unfolding extension
extension-no_dot c acc h d = rw (h, d) refl

extension-dot :
    (c : ℕ) (acc : Bytes)
    → extension acc ≡ none
    → (c == b'.') ≡ true
    → extension (c ∷ acc) ≡ some acc
unfolding extension
extension-dot c acc h d = rw (h, d) refl

shorter_le : (m n : ℕ) (e : Option Bytes) → m ≤ n → shorter n e ≡ none → shorter m e ≡ none
shorter_le m n none l h = refl
shorter_le m n (some e) l h = ground arith

shorter_self : (acc : Bytes) → shorter (length acc) (some acc) ≡ none
shorter_self acc = ground arith

length-extension :
    (back acc : Bytes)
    → extension acc ≡ none
    → shorter (length acc) (extension (backwards back acc)) ≡ none
length-extension [] acc h = rw h refl
length-extension (c ∷ back) acc h = elim (Bool-cases (c == b'.')) [
  | inl d ↦ rw (extension-backwards back (c ∷ acc) (extension-dot c acc h d)) (shorter_self acc)
  | inr d ↦
      shorter_le _ _ (extension (backwards back (c ∷ acc))) (omega arith)
        (length-extension back (c ∷ acc) (extension-no_dot c acc h d))
]

-- Looking from the end finds the last '.', within the limit.
behind_dot-extension :
    (n : ℕ) (back acc : Bytes)
    → extension acc ≡ none
    → behind_dot n back acc ≡ shorter (n + length acc) (extension (backwards back acc))
unfolding behind_dot
behind_dot-extension zero back acc h =
    let q : 0 + length acc ≡ length acc = omega arith in rw q (sym (length-extension back acc h))
behind_dot-extension (suc n) [] acc h = rw h refl
behind_dot-extension (suc n) (c ∷ back) acc h =
    if-cases (λ r. r ≡ shorter (suc n + length acc) (extension (backwards back (c ∷ acc))))
      (c == b'.') _ _
      (λ d.
        let l : ltb (length acc) (suc n + length acc) ≡ true = ground arith in
        rw (extension-backwards back (c ∷ acc) (extension-dot c acc h d), l) refl)
      (λ d.
        let q : n + length (c ∷ acc) ≡ suc n + length acc = omega arith in
        rw⁻¹ q (behind_dot-extension n back (c ∷ acc) (extension-no_dot c acc h d)))

backwards-backwards : (s acc : Bytes) → backwards (backwards s acc) [] ≡ backwards acc s
backwards-backwards [] acc = refl
backwards-backwards (c ∷ s) acc = backwards-backwards s (c ∷ acc)

found_ext-extension :
    (list : List Strlist) (fname : Bytes)
    → found_ext list fname ≡ shorter (ext_limit list) (extension fname)
unfolding found_ext extension
found_ext-extension list fname =
    let q : ext_limit list + 0 ≡ ext_limit list = omega arith in
    behind_dot-extension (ext_limit list) (backwards fname []) [] refl
    ∙ ap (λ n. shorter n (extension (backwards (backwards fname []) []))) q
    ∙ ap (λ s. shorter (ext_limit list) (extension s)) (backwards-backwards fname [])

-- Equal names have equal lengths.
length-str_caseeq : (a b : Bytes) → str_caseeq a b ≡ true → length a ≡ length b
unfolding str_caseeq
length-str_caseeq [] [] h = refl
length-str_caseeq [] (y ∷ b) h = ground arith
length-str_caseeq (x ∷ a) [] h = ground arith
length-str_caseeq (x ∷ a) (y ∷ b) h =
    omega (arith, length-str_caseeq a b (and-true (lower x == lower y) _ h))
  where
    and-true : (p q : Bool) → p && q ≡ true → q ≡ true
    and-true true q h = h
    and-true false q h = ground arith

longest_path_le : (list : List Strlist) (max : ℕ) → max ≤ longest_path list max
longest_path_le [] max = omega arith
longest_path_le (x ∷ list) max =
    let l = longest_path_le list (if ltb max (length x.path) then length x.path else max) in
    ground arith

-- Nothing that is too long is in the list.
in_list-longest :
    (list : List Strlist) (max : ℕ) (e : Bytes)
    → longest_path list max < length e
    → in_list list e ≡ false
in_list-longest [] max e h = refl
in_list-longest (x ∷ list) max e h =
    let next = if ltb max (length x.path) then length x.path else max in
    let rest = in_list-longest list next e h in
    let l = longest_path_le list next in
    let m : length x.path ≤ next = ground arith in
    let differs : str_caseeq x.path e ≡ false = elim (Bool-cases (str_caseeq x.path e)) [
      | inl t ↦ absurd (omega (arith, length-str_caseeq x.path e t))
      | inr t ↦ t
    ] in
    rw (differs, rest) refl

-- Whether the extension of a name is in the list, however long it is.
unfoldable pub ext_in : List Strlist → Bytes → Bool
unfolding extension
ext_in list fname = elim (extension fname) [ none ↦ false | some e ↦ in_list list e ]

-- A list and its limit.
abbrev found_in : List Strlist → Option Bytes → Bool
found_in list none = false
found_in list (some e) = in_list list e

shorter-found :
    (x : Strlist) (list : List Strlist) (o : Option Bytes)
    → found_in (set_max_ext (x ∷ list)) (shorter (ext_limit (set_max_ext (x ∷ list))) o)
      ≡ found_in (x ∷ list) o
unfolding set_max_ext
shorter-found x list none = refl
shorter-found x list (some e) =
    if-cases (λ o. found_in (set_max_ext (x ∷ list)) o ≡ in_list (x ∷ list) e)
      (ltb (length e) (longest_path (x ∷ list) 0 + 1)) _ _ (λ h. refl)
      (λ h. sym (in_list-longest (x ∷ list) 0 e (ground arith)))

found-extension :
    (list : List Strlist) (o : Option Bytes)
    → found_in list o ≡ (elim o [ none ↦ false | some e ↦ in_list list e ])
found-extension list none = refl
found-extension list (some e) = refl

-- With the limit of `set_max_ext`, the loop finds the extension wherever it is in the list.
found-set_max_ext :
    (x : Strlist) (list : List Strlist) (fname : Bytes)
    → found_in (set_max_ext (x ∷ list)) (found_ext (set_max_ext (x ∷ list)) fname)
      ≡ ext_in (x ∷ list) fname
unfolding ext_in
found-set_max_ext x list fname =
    ap (found_in (set_max_ext (x ∷ list))) (found_ext-extension (set_max_ext (x ∷ list)) fname)
    ∙ shorter-found x list (extension fname)
    ∙ found-extension (x ∷ list) (extension fname)

include-found :
    (x : Strlist) (list : List Strlist) (fname : Bytes)
    → in_include_ext (x ∷ list) fname ≡ found_in (x ∷ list) (found_ext (x ∷ list) fname)
unfolding in_include_ext
include-found x list fname = sym (found-extension (x ∷ list) (found_ext (x ∷ list) fname))

exclude-found :
    (x : Strlist) (list : List Strlist) (fname : Bytes)
    → in_exclude_ext (x ∷ list) fname ≡ found_in (x ∷ list) (found_ext (x ∷ list) fname)
unfolding in_exclude_ext
exclude-found x list fname = sym (found-extension (x ∷ list) (found_ext (x ∷ list) fname))

comp-found :
    (x : Strlist) (list : List Strlist) (fname : Bytes) (c : ℕ)
    → in_exclude_comp (x ∷ list) fname c
      ≡ (if found_in (x ∷ list) (found_ext (x ∷ list) fname) then 0 else c)
unfolding in_exclude_comp
comp-found x list fname c =
    if-cases (λ r. r ≡ (if found_in (x ∷ list) found then 0 else c)) (c == 0 || false) _ _
      (λ h. let z : c ≡ 0 = ground arith in none_left (found_in (x ∷ list) found) z)
      (λ h. found-comp found)
  where
    found : Option Bytes
    found = found_ext (x ∷ list) fname

    none_left : (b : Bool) → c ≡ 0 → c ≡ (if b then 0 else c)
    none_left true z = z
    none_left false z = refl

    found-comp :
        (o : Option Bytes)
        → (elim o [ none ↦ c | some e ↦ if in_list (x ∷ list) e then 0 else c ])
          ≡ (if found_in (x ∷ list) o then 0 else c)
    found-comp none = refl
    found-comp (some e) = refl

ext_in-nil : (fname : Bytes) → ext_in [] fname ≡ false
unfolding ext_in
ext_in-nil fname = if_none (extension fname)
  where
    if_none : (o : Option Bytes) → (elim o [ none ↦ false | some e ↦ false ]) ≡ false
    if_none none = refl
    if_none (some e) = refl

-- With the limit that `set_max_ext` puts in the first item, the loops over the last characters of
-- a name agree with its extension, what stands behind the last dot: a file is excluded if that is
-- in the list, is included if it is or if the list is empty, and is not compressed if it is.
pub exts-extension :
    (list : List Strlist) (fname : Bytes) (compression : ℕ)
    → (in_include_ext (set_max_ext list) fname ≡ is_nil list || ext_in list fname)
      × (in_exclude_ext (set_max_ext list) fname ≡ ext_in list fname)
      × (in_exclude_comp (set_max_ext list) fname compression
          ≡ (if ext_in list fname then 0 else compression))
exts-extension [] fname compression =
    let no = ext_in-nil fname in
    unfold set_max_ext in
    unfold in_include_ext in
    unfold in_exclude_ext in unfold in_exclude_comp in rw no (refl, refl, ground arith)
exts-extension (x ∷ list) fname compression =
    let f = found-set_max_ext x list fname in
    (
      unfold set_max_ext in include-found _ list fname ∙ f,
      unfold set_max_ext in exclude-found _ list fname ∙ f,
      unfold set_max_ext in
          comp-found _ list fname compression ∙ ap (λ b. if b then 0 else compression) f,
    )
