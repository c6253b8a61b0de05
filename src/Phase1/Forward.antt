-- ===== src/Phase1/Forward.antt =====
-- `forward_sbuf` of src/backup_phase1_server.c on a file of well-formed entries.
use burp.Prelude.{
  ℕ, zero, suc, ◌+◌, ◌<◌, ◌≡◌, refl, ap, ◌∙◌, Bool, true, false, Option, none, some, List, [], ◌∷◌,
  arith, if◌then◌else◌, length, All,
}
use burp.Prelude.Chars.{Bytes}
use burp.Counter.{Cntr}
use burp.Dpth.{Dpth, set_dpth_from_string}
use burp.Msg.{Ret, done, ended, Stream}
use burp.Sbuf.{Sbuf, init_sbuf}
use burp.Sbuf.Entry.{Entry, to_sbuf}
use burp.Sbuf.Fill.{sbuf_fill, sbuf_fill_phase1}
use burp.Phase1.{
  Aim, Forwarding, Forth, halt, onward, forward_got, reached, count_forward, forward_entry,
  forward_loop, forward_sbuf,
}

-- The path of the data, if there is one, is understood.
abbrev pub Parses : Option Bytes → Type 0
Parses p = (d : Dpth) → (set_dpth_from_string d p).0 ≡ true

abbrev pub fill : Bool → Sbuf → Stream → Ret × Sbuf × Stream
fill isphase1 = if isphase1 then sbuf_fill_phase1 else sbuf_fill

-- A file that gives entries, one by one, and then its end, where a part of an entry may stand.
pub record Source (isphase1 : Bool) (Ok : Entry → Type 0) : Type 0 where
  pub file : List Entry → Stream
  pub at_end : Stream
  pub part : Sbuf
  pub gives :
      (e : Entry) (es : List Entry)
      → Ok e
      → fill isphase1 init_sbuf (file (e ∷ es)) ≡ (done, to_sbuf e, file es)
  pub ends : fill isphase1 init_sbuf (file []) ≡ (ended, part, at_end)
  pub part_parses : Parses part.datapth
  pub parses : (e : Entry) → Ok e → Parses e.datapth
  pub longer : (es : List Entry) → length es < length (file es).unread + 1

-- Where the search ends: the entry, and the entries behind it, or the last entry at the end.
abbrev pub Place : Type 0
Place = Sbuf × Option (List Entry)

-- The first entry that is not before the target.
unfoldable pub seek : Option Sbuf → Bool → Sbuf → List Entry → Place
seek target back latest [] = (latest, none)
seek target back latest (e ∷ es) =
    let rest = seek target back (to_sbuf e) es in
    if reached target (to_sbuf e) then (to_sbuf e, some (if back then e ∷ es else es)) else rest

module _ {isphase1 : Bool} {Ok : Entry → Type 0} (src : Source isphase1 Ok) (aim : Aim)
    (phase : aim.isphase1 ≡ isphase1) where
  abbrev pub file_at : Option (List Entry) → Stream
  file_at none = src.at_end
  file_at (some es) = src.file es

  -- The result is 0, and the entry and the file are those of the place.
  abbrev pub Arrives : Place → Ret × Forwarding → Type 0
  Arrives p (r, s) = (r ≡ done) × (s.b ≡ p.0) × (s.fp ≡ file_at p.1)

  after : ℕ → Forth → Ret × Forwarding
  after f (halt r s) = (r, s)
  after f (onward s) = forward_loop f aim s

  -- A round, by what the file gives.
  round :
      (f : ℕ) (s : Forwarding) {p : Ret × Sbuf × Stream} (es : List Entry)
      → s.fp ≡ src.file es
      → s.b ≡ init_sbuf
      → fill isphase1 init_sbuf (src.file es) ≡ p
      → forward_loop (suc f) aim s ≡ after f (forward_got aim p s)
  unfolding forward_loop after
  round f s {p} es a b e =
      let got : fill aim.isphase1 s.b s.fp ≡ p = rw (phase, a, b) e in
      ap
        (λ q. elim (forward_got aim q s) as (λ z. Ret × Forwarding) [
          | halt r s' ↦ (r, s')
          | onward s' ↦ forward_loop f aim s'
        ])
        got

  got-end :
      (s : Forwarding)
      → forward_got aim (ended, src.part, src.at_end) s
        ≡ halt done (record s {
          dpth = (set_dpth_from_string s.dpth src.part.datapth).1;
          fp = src.at_end;
          b = s.latest;
        })
  unfolding forward_got
  got-end s = rw (src.part_parses s.dpth) refl

  got-entry :
      (s : Forwarding) (e : Entry) (fp : Stream)
      → Ok e
      → forward_got aim (done, to_sbuf e, fp) s
        ≡ forward_entry aim
            (to_sbuf e)
            fp
            (record s { dpth = (set_dpth_from_string s.dpth e.datapth).1 })
  unfolding forward_got
  got-entry s e fp h = rw (src.parses e h s.dpth) refl

  round-end :
      (f : ℕ) (s : Forwarding)
      → s.fp ≡ src.file []
      → s.b ≡ init_sbuf
      → Arrives (s.latest, none) (forward_loop (suc f) aim s)
  unfolding after
  round-end f s a b =
      let e = round f s [] a b src.ends ∙ ap (after f) (got-end s) in rw e (refl, refl, refl)

  -- A round that read an entry, where the rounds behind it arrive.
  entry-Arrives :
      (f : ℕ) (e : Entry) (es : List Entry) (s : Forwarding)
      → s.fp ≡ src.file (e ∷ es)
      → ((c : Option Cntr)
          → Arrives (seek aim.target aim.seekback (to_sbuf e) es) (
              forward_loop f aim
                (record s { fp = src.file es; b = init_sbuf; latest = to_sbuf e; cntr = c })))
      → Arrives
          (seek aim.target aim.seekback s.latest (e ∷ es))
          (after f (forward_entry aim (to_sbuf e) (src.file es) s))
  unfolding forward_entry after seek
  entry-Arrives f e es s a again =
      let back =
        elim aim.seekback
          as (λ c. (if c then s.fp else src.file es) ≡ src.file (if c then e ∷ es else es)) [
            | true ↦ a
            | false ↦ refl
          ] in
      elim (reached aim.target (to_sbuf e))
        as (λ c.
          Arrives
            (if c
              then (to_sbuf e, some (if aim.seekback then e ∷ es else es))
              else seek aim.target aim.seekback (to_sbuf e) es)
            (after f (
              if c
              then halt done (record s {
                fp = if aim.seekback then s.fp else src.file es;
                b = to_sbuf e;
                latest = init_sbuf;
              })
              else onward (record s {
                fp = src.file es;
                b = init_sbuf;
                latest = to_sbuf e;
                cntr = count_forward aim (to_sbuf e) s.cntr;
              })))) [
                | true ↦ (refl, refl, back)
                | false ↦ again (count_forward aim (to_sbuf e) s.cntr)
              ]

  loop-Arrives :
      (f : ℕ) (es : List Entry) (s : Forwarding)
      → All Ok es
      → length es < f
      → s.fp ≡ src.file es
      → s.b ≡ init_sbuf
      → Arrives (seek aim.target aim.seekback s.latest es) (forward_loop f aim s)
  loop-Arrives zero es s h l a b = absurd (omega arith)
  loop-Arrives (suc f) [] s h l a b = unfold seek in round-end f s a b
  loop-Arrives (suc f) (e ∷ es) s h l a b =
      let r = round f s (e ∷ es) a b (src.gives e es h.0) ∙ ap (after f) (got-entry s e _ h.0) in
      let d = (set_dpth_from_string s.dpth e.datapth).1 in
      rw r (
        entry-Arrives f e es (record s { dpth = d }) a
          (λ c. loop-Arrives f es _ h.1 (omega arith) refl refl))

  -- The search ends at the place that `seek` finds.
  pub forward-Arrives :
      (es : List Entry) (dpth : Dpth) (cntr : Option Cntr)
      → All Ok es
      → Arrives
          (seek aim.target aim.seekback init_sbuf es)
          (forward_sbuf aim (src.file es) dpth cntr)
  unfolding forward_sbuf
  forward-Arrives es dpth cntr h =
      loop-Arrives (length (src.file es).unread + 1) es _ h (src.longer es) refl refl
