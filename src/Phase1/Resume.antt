-- ===== src/Phase1/Resume.antt =====
-- Where `do_resume` of src/backup_phase1_server.c leaves the three files.
use mathlib.Core.List.{append-nil}
use mathlib.Core.Path.{subst}
use burp.Prelude.{
  ℕ, ◌≡◌, refl, ap, sym, ◌∙◌, arith, Bool, true, false, not, ◌&&◌, ◌||◌, Option, none, some, List,
  [], ◌∷◌, ◌++◌, if◌then◌else◌, if-cases, All,
}
use burp.Prelude.Chars.{c_str}
use burp.Counter.{Cntr}
use burp.Dpth.{Dpth, incr_dpth}
use burp.Msg.{Ret, done, failed, is_done, Stream}
use burp.Sbuf.{Sbuf, init_sbuf}
use burp.Sbuf.Entry.{Entry, to_sbuf}
use burp.Path.{Cmp, less, same, more, pathcmp}
use burp.Path.Order.{pathcmp_refl}
use burp.Sbuf.Compare.{sbuf_pathcmp, cmd_order, is_meta, is_vss, is_vss_t}
use burp.Phase1.{
  Aim, reached, forward_sbuf, to_end, to_last, to_phase1, to_unchanged, Resumed, do_resume,
}
use burp.Phase1.Fill.{IsScanned}
use burp.Phase1.Listed.{read_phase1-list, count_list}
use burp.Phase1.Looped.{forward-looped}
use burp.Phase1.Forward.{Source, seek, Arrives, file_at, forward-Arrives}
use burp.Phase1.Sources.{scans, IsNamed, Tail, with_tail, manifest}

-- The target comes behind the entry.
abbrev pub Behind : Sbuf → Entry → Type 0
Behind t e = reached (some t) (to_sbuf e) ≡ false

seek-none :
    (back : Bool) (l : Sbuf) (front : List Entry) (x : Entry)
    → seek none back l (front ++ (x ∷ [])) ≡ (to_sbuf x, none)
unfolding seek
seek-none back l [] x = refl
seek-none back l (e ∷ front) x = seek-none back (to_sbuf e) front x

seek-found :
    (t : Sbuf) (back : Bool) (l : Sbuf) (front : List Entry) (x : Entry) (es : List Entry)
    → All (Behind t) front
    → reached (some t) (to_sbuf x) ≡ true
    → seek (some t) back l (front ++ (x ∷ es)) ≡ (to_sbuf x, some (if back then x ∷ es else es))
unfolding seek
seek-found t back l [] x es h r = rw r refl
seek-found t back l (e ∷ front) x es h r = rw h.0 (seek-found t back (to_sbuf e) front x es h.1 r)

-- No entry is reached: the end of the file.
seek-end :
    (t : Sbuf) (back : Bool) (l : Sbuf) (front : List Entry)
    → All (Behind t) front
    → (seek (some t) back l front).1 ≡ none
unfolding seek
seek-end t back l [] h = refl
seek-end t back l (e ∷ front) h = rw h.0 (seek-end t back (to_sbuf e) front h.1)

-- An entry is reached by itself.
cmd_order_refl : (c : ℕ) → cmd_order c c ≡ same
unfolding cmd_order
cmd_order_refl c =
    if-same (is_meta c) _ _ (λ e. rw e refl)
      (λ e.
        if-same (is_vss c) _ _ (λ f. rw f refl)
          (λ f. if-same (is_vss_t c) _ _ (λ g. rw g refl) (λ g. rw (e, f, g) refl)))
  where
    if-same :
        (b : Bool) (x y : Cmp)
        → (b ≡ true → x ≡ same)
        → (b ≡ false → y ≡ same)
        → (if b then x else y) ≡ same
    if-same = if-cases (λ z. z ≡ same)

reached_self : (x : Entry) → reached (some (to_sbuf x)) (to_sbuf x) ≡ true
unfolding sbuf_pathcmp pathcmp
reached_self x =
    let same_path = pathcmp_refl (c_str x.path) in
    ap
      (λ c.
        elim (elim c as (λ z. Cmp) [ less ↦ less | same ↦ cmd_order x.cmd x.cmd | more ↦ more ])
          as (λ z. Bool) [ more ↦ false | less ↦ true | same ↦ true ])
      same_path
    ∙ ap (λ c. elim c as (λ z. Bool) [ more ↦ false | less ↦ true | same ↦ true ])
        (cmd_order_refl x.cmd)

module _ {isphase1 : Bool} {Ok : Entry → Type 0} (src : Source isphase1 Ok) (aim : Aim)
    (phase : aim.isphase1 ≡ isphase1) (dpth : Dpth) (cntr : Option Cntr) where
  forward-found :
      {t : Sbuf} (front : List Entry) (x : Entry) (es : List Entry)
      → aim.target ≡ some t
      → All Ok (front ++ (x ∷ es))
      → All (Behind t) front
      → reached (some t) (to_sbuf x) ≡ true
      → Arrives src aim phase
          (to_sbuf x, some (if aim.seekback then x ∷ es else es))
          (forward_sbuf aim (src.file (front ++ (x ∷ es))) dpth cntr)
  forward-found {t} front x es e h b r =
      let a = forward-Arrives src aim phase (front ++ (x ∷ es)) dpth cntr h in
      let s =
        ap (λ z. seek z aim.seekback init_sbuf (front ++ (x ∷ es))) e
        ∙ seek-found t aim.seekback init_sbuf front x es b r in
      subst
        (λ z. Arrives src aim phase z (forward_sbuf aim (src.file (front ++ (x ∷ es))) dpth cntr)) s
        a

  forward-missed :
      {t : Sbuf} (es : List Entry)
      → aim.target ≡ some t
      → All Ok es
      → All (Behind t) es
      → let r = forward_sbuf aim (src.file es) dpth cntr in (r.0 ≡ done) × (r.1.fp ≡ src.at_end)
  forward-missed {t} es e h b =
      let a = forward-Arrives src aim phase es dpth cntr h in
      let s =
        ap (λ z. (seek z aim.seekback init_sbuf es).1) e ∙ seek-end t aim.seekback init_sbuf es b in
      (a.0, a.2 ∙ ap (file_at src aim phase) s)

-- What is left of a list of unchanged entries: at its end, also what may stand behind the last
-- whole entry is behind.
abbrev pub left : Tail → List Entry → Stream
left t [] = record { unread = []; broken = false }
left t (u ∷ us) = with_tail t (u ∷ us)

abbrev pub Head : Sbuf → List Entry → Type 0
Head t [] = Unit
Head t (u ∷ us) = reached (some t) (to_sbuf u) ≡ true

forward-unchanged :
    (tail : Tail) (t : Sbuf) (dpth : Dpth) (cntr : Option Cntr) (front back : List Entry)
    → All IsNamed (front ++ back)
    → All (Behind t) front
    → Head t back
    → let r = forward_sbuf (to_unchanged t) (with_tail tail (front ++ back)) dpth cntr in
      (r.0 ≡ done) × (r.1.fp ≡ left tail back)
forward-unchanged tail t dpth cntr front [] h b r = rw (append-nil front) (
    forward-missed (manifest tail) (to_unchanged t) refl dpth cntr front refl (rw append-nil at h)
      b)
forward-unchanged tail t dpth cntr front (u ∷ us) h b r =
    let a = forward-found (manifest tail) (to_unchanged t) refl dpth cntr front u us refl h b r in
    (a.0, a.2)

all-done :
    {g0 g1 g2 g3 g4 : Ret}
    → g0 ≡ done
    → g1 ≡ done
    → g2 ≡ done
    → g3 ≡ done
    → g4 ≡ done
    → {ok : Bool} → ok ≡ true
    → (send : Bool)
    → (if not (is_done g0)
          || not (is_done g1)
          || not (is_done g2)
          || not (is_done g3)
          || not (is_done g4)
          || not ok
          || (send && not true)
        then failed
        else done)
      ≡ done
all-done e0 e1 e2 e3 e4 e true = rw (e0, e1, e2, e3, e4, e) refl
all-done e0 e1 e2 e3 e4 e false = rw (e0, e1, e2, e3, e4, e) refl

-- Before the names were gone through once, there is a next one.
first_loop : (max : ℕ) (d : Dpth) → d.looped ≡ 0 → (incr_dpth max d).0 ≡ true
unfolding incr_dpth
first_loop max d e = ground (arith, e)

module _ (max : ℕ) (send : Bool) (dpth : Dpth) (p1cntr cntr : Option Cntr) (tail uc_tail : Tail)
    (front pre ua ub : List Entry) (x p : Entry) (post : List Entry) where
  -- `x` is the last entry of phase 2, and `p` the entry of phase 1 that it is for.
  abbrev p2_list : List Entry
  p2_list = front ++ (x ∷ [])

  abbrev p1_list : List Entry
  p1_list = pre ++ (p ∷ post)

  abbrev uc_list : List Entry
  uc_list = ua ++ ub

  abbrev resumed : Ret × Resumed
  resumed =
      do_resume max send true (scans.file p1_list) (with_tail tail p2_list)
        (with_tail uc_tail uc_list) dpth p1cntr cntr

  -- On lists of well-formed entries whose data paths are understood, each perhaps followed by a
  -- part of an entry: where all of phase 2 but its last entry `x`, and all of the list of phase 1
  -- in front of `p`, are before `x`, and `p` is not, `do_resume` leaves phase 1 behind `p`, phase
  -- 2 behind `x` and before the part of an entry, and the unchanged entries in front of the first
  -- one that is not before `x` (if all are, at the end of the file), with the entries of phase 1
  -- counted; where the counters can be sent, and the names of the data files were not gone through
  -- once already, it returns 0.
  pub resume-positions :
      dpth.looped ≡ 0
      → All IsScanned p1_list
      → All IsNamed p2_list
      → All IsNamed uc_list
      → All (Behind (to_sbuf x)) front
      → All (Behind (to_sbuf x)) pre
      → reached (some (to_sbuf x)) (to_sbuf p) ≡ true
      → All (Behind (to_sbuf x)) ua
      → Head (to_sbuf x) ub
      → (resumed.1.p1 ≡ scans.file post)
        × (resumed.1.p2 ≡ with_tail tail [])
        × (resumed.1.uc ≡ left uc_tail ub)
        × (resumed.1.p1cntr ≡ count_list p1_list p1cntr)
        × (resumed.0 ≡ done)
  unfolding do_resume
  resume-positions start h1 h2 hu front_behind pre_behind at_p ua_behind head =
      let m = manifest tail in
      let r0 = read_phase1-list p1_list p1cntr false h1 in
      let (g1, f1) = forward_sbuf to_end (m.file p2_list) dpth cntr in
      let a1 = forward-Arrives m to_end refl p2_list dpth cntr h2 in
      let b1 : f1.b ≡ to_sbuf x = a1.1 ∙ ap (λ z. z.0) (seek-none false init_sbuf front x) in
      let back = λ (P : Sbuf → Type 0) (v : P (to_sbuf x)). subst P (sym b1) v in
      let (g2, f2) = forward_sbuf (to_last f1.b) (m.file p2_list) f1.dpth f1.cntr in
      let a2 =
        forward-found m (to_last f1.b) refl f1.dpth f1.cntr front x [] refl h2
          (back (λ t. All (Behind t) front) front_behind)
          (back (λ t. reached (some t) (to_sbuf x) ≡ true) (reached_self x)) in
      let ahead = λ (P : Sbuf → Type 0) (v : P (to_sbuf x)). subst P (sym a2.1) v in
      let (g3, f3) = forward_sbuf (to_phase1 f2.b) (scans.file p1_list) f2.dpth f2.cntr in
      let a3 =
        forward-found scans (to_phase1 f2.b) refl f2.dpth f2.cntr pre p post refl h1
          (ahead (λ t. All (Behind t) pre) pre_behind)
          (ahead (λ t. reached (some t) (to_sbuf p) ≡ true) at_p) in
      let (g4, f4) = forward_sbuf (to_unchanged f2.b) (with_tail uc_tail uc_list) f3.dpth f3.cntr in
      let a4 =
        forward-unchanged uc_tail f2.b f3.dpth f3.cntr ua ub hu
          (ahead (λ t. All (Behind t) ua) ua_behind) (ahead (λ t. Head t ub) head) in
      (
        a3.2,
        a2.2,
        a4.1,
        ap (λ r. r.2) r0,
        all-done (ap (λ r. r.0) r0) a1.0 a2.0 a3.0 a4.0
            (first_loop max f4.dpth (
              forward-looped (to_unchanged f2.b) (with_tail uc_tail uc_list) f3.dpth f3.cntr
              ∙ forward-looped (to_phase1 f2.b) (scans.file p1_list) f2.dpth f2.cntr
              ∙ forward-looped (to_last f1.b) (m.file p2_list) f1.dpth f1.cntr
              ∙ forward-looped to_end (m.file p2_list) dpth cntr
              ∙ start))
            send,
      )

-- A file without a path is before every entry.
reached_init : (e : Entry) → reached (some init_sbuf) (to_sbuf e) ≡ true
unfolding sbuf_pathcmp pathcmp
reached_init e = refl

-- Where phase 2 has no entry that is whole, `do_resume` leaves the list of phase 1, of well-formed
-- entries, behind its first entry, so that the first file is never asked for.
pub resume_skips_first :
    (max : ℕ) (send : Bool) (uc : Stream) (dpth : Dpth) (p1cntr cntr : Option Cntr) (tail : Tail)
    (e : Entry) (es : List Entry)
    → All IsScanned (e ∷ es)
    → (do_resume max send true (scans.file (e ∷ es)) (with_tail tail []) uc dpth p1cntr cntr).1.p1
      ≡ scans.file es
unfolding do_resume seek
resume_skips_first max send uc dpth p1cntr cntr tail e es h =
    let m = manifest tail in
    let f1 = (forward_sbuf to_end (m.file []) dpth cntr).1 in
    let a1 = forward-Arrives m to_end refl [] dpth cntr tt in
    let f2 = (forward_sbuf (to_last f1.b) (m.file []) f1.dpth f1.cntr).1 in
    let a2 = forward-Arrives m (to_last f1.b) refl [] f1.dpth f1.cntr tt in
    let a3 =
      forward-found scans (to_phase1 f2.b) refl f2.dpth f2.cntr [] e es refl h tt
        (ap (λ t. reached (some t) (to_sbuf e)) a2.1 ∙ reached_init e) in
    a3.2
