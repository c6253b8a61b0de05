-- ===== src/Counter/Totals.antt =====
-- The totals of `struct cntr` of src/counter.h, and the counters of the kinds.
use burp.Prelude.{ℕ, ◌+◌, ◌%◌, ◌≡◌, Option, none, some, List, [], ◌∷◌, arith}
use burp.Counter.{
  Tally, Cntr, ull_mod, filecounter, filecounter_same, filecounter_changed, filecounter_deleted,
  reset_filecounter, do_filecounter, do_filecounter_same, do_filecounter_changed,
  do_filecounter_deleted,
}

abbrev pub sum_kinds : (Tally → ℕ) → Cntr → ℕ
sum_kinds g c =
    g c.file
    + g c.enc
    + g c.meta
    + g c.encmeta
    + g c.dir
    + g c.slink
    + g c.hlink
    + g c.special
    + g c.efs
    + g c.vss
    + g c.encvss
    + g c.vss_t
    + g c.encvss_t

-- Each total is the sum of its kinds, modulo 2 ^ 64.
pub record AddsUp (c : Cntr) : Type 0 where
  pub fresh : c.total.fresh ≡ sum_kinds (λ t. t.fresh) c % ull_mod
  pub same : c.total.same ≡ sum_kinds (λ t. t.same) c % ull_mod
  pub changed : c.total.changed ≡ sum_kinds (λ t. t.changed) c % ull_mod
  pub deleted : c.total.deleted ≡ sum_kinds (λ t. t.deleted) c % ull_mod

filecounter-AddsUp : (ch : ℕ) (c : Cntr) → AddsUp c → AddsUp (filecounter ch c)
unfolding filecounter
filecounter-AddsUp ch c h = ground arith

-- One call of a counting function, and a run of calls.
pub data Event : Type 0 where
  fresh same changed deleted : ℕ → Event

pub apply : Event → Option Cntr → Option Cntr
apply (Event.fresh ch) = do_filecounter ch
apply (Event.same ch) = do_filecounter_same ch
apply (Event.changed ch) = do_filecounter_changed ch
apply (Event.deleted ch) = do_filecounter_deleted ch

unfoldable pub run : List Event → Option Cntr → Option Cntr
unfolding apply
run [] c = c
run (e ∷ es) c = run es (apply e c)

abbrev pub Holds {ℓ} : (Cntr → Type ℓ) → Option Cntr → Type ℓ
Holds P none = Unit
Holds P (some c) = P c

changed-AddsUp : (ch : ℕ) (c : Cntr) → AddsUp c → AddsUp (filecounter_changed ch c)
unfolding filecounter_changed
changed-AddsUp ch c h = ground arith

same-AddsUp : (ch : ℕ) (c : Cntr) → AddsUp c → AddsUp (filecounter_same ch c)
unfolding filecounter_same
same-AddsUp ch c h = ground arith

deleted-AddsUp : (ch : ℕ) (c : Cntr) → AddsUp c → AddsUp (filecounter_deleted ch c)
unfolding filecounter_deleted
deleted-AddsUp ch c h = ground arith

apply-AddsUp : (e : Event) (c : Option Cntr) → Holds AddsUp c → Holds AddsUp (apply e c)
unfolding apply do_filecounter do_filecounter_same do_filecounter_changed do_filecounter_deleted
apply-AddsUp (Event.fresh ch) none h = tt
apply-AddsUp (Event.same ch) none h = tt
apply-AddsUp (Event.changed ch) none h = tt
apply-AddsUp (Event.deleted ch) none h = tt
apply-AddsUp (Event.fresh ch) (some c) h = filecounter-AddsUp ch c h
apply-AddsUp (Event.same ch) (some c) h = same-AddsUp ch c h
apply-AddsUp (Event.changed ch) (some c) h = changed-AddsUp ch c h
apply-AddsUp (Event.deleted ch) (some c) h = deleted-AddsUp ch c h

pub run-AddsUp : (es : List Event) (c : Option Cntr) → Holds AddsUp c → Holds AddsUp (run es c)
unfolding run
run-AddsUp [] c h = h
run-AddsUp (e ∷ es) c h = run-AddsUp es (apply e c) (apply-AddsUp e c h)

-- After a reset and any sequence of calls of the four counting functions, each of the four totals
-- of the counters is the sum of the counters of the thirteen kinds, modulo 2 ^ 64.
pub reset-run-AddsUp :
    (t : ℕ) (es : List Event) (c : Option Cntr) → Holds AddsUp (run es (reset_filecounter t c))
reset-run-AddsUp t es c = run-AddsUp es (reset_filecounter t c) (start c)
  where
    start : (c : Option Cntr) → Holds AddsUp (reset_filecounter t c)
    start none = unfold reset_filecounter in tt
    start (some c) = unfold reset_filecounter in omega arith
