-- ===== src/Phase1/Looped.antt =====
-- The search of src/backup_phase1_server.c does not count loops of the names of data files.
use burp.Prelude.{ℕ, zero, suc, ◌≡◌, refl, ◌∙◌, not, if◌then◌else◌, if-cases, Option}
use burp.Counter.{Cntr}
use burp.Dpth.{Dpth, set_dpth_from_string}
use burp.Dpth.Scan.{set-looped}
use burp.Msg.{Ret, done, ended, failed, fault, Stream}
use burp.Sbuf.{Sbuf, init_sbuf, free_sbuf}
use burp.Sbuf.Fill.{sbuf_fill, sbuf_fill_phase1}
use burp.Phase1.{
  Aim, Forwarding, Forth, halt, onward, forward_got, forward_entry, reached, forward_loop,
  forward_sbuf,
}

-- A round leaves the number of loops as it is.
abbrev Same : ℕ → Forth → Type 0
Same n (halt r s) = s.dpth.looped ≡ n
Same n (onward s) = s.dpth.looped ≡ n

entry-Same :
    (aim : Aim) (b : Sbuf) (fp : Stream) (s : Forwarding)
    → Same s.dpth.looped (forward_entry aim b fp s)
unfolding forward_entry
entry-Same aim b fp s =
    if-cases (Same s.dpth.looped) (reached aim.target b) _ _ (λ e. refl) (λ e. refl)

Same-path : {m n : ℕ} → m ≡ n → (f : Forth) → Same m f → Same n f
Same-path e (halt r s) h = h ∙ e
Same-path e (onward s) h = h ∙ e

got-Same :
    (aim : Aim) (g : Ret × Sbuf × Stream) (s : Forwarding)
    → Same s.dpth.looped (forward_got aim g s)
unfolding forward_got
got-Same aim (r, b, fp) s =
    let k = set-looped s.dpth b.datapth in
    if-cases (Same s.dpth.looped) (not (set_dpth_from_string s.dpth b.datapth).0) _ _ (λ e. k)
      (λ e.
        let at : Forwarding = record s { dpth = (set_dpth_from_string s.dpth b.datapth).1 } in
        elim r
          as (λ r. Same s.dpth.looped (elim r [
            | done ↦ forward_entry aim b fp at
            | ended ↦ halt done (record at { fp = fp; b = s.latest })
            | failed ↦ halt failed (record at { fp = fp; b = free_sbuf b; latest = init_sbuf })
            | fault ↦ halt fault (record at { fp = fp; b = free_sbuf b; latest = init_sbuf })
          ])) [
            | done ↦ Same-path k (forward_entry aim b fp at) (entry-Same aim b fp at)
            | ended ↦ k
            | failed ↦ k
            | fault ↦ k
          ])

loop-looped :
    (f : ℕ) (aim : Aim) (s : Forwarding) → (forward_loop f aim s).1.dpth.looped ≡ s.dpth.looped
unfolding forward_loop
loop-looped zero aim s = refl
loop-looped (suc f) aim s =
    let got = (if aim.isphase1 then sbuf_fill_phase1 else sbuf_fill) s.b s.fp in
    after (forward_got aim got s) (got-Same aim got s) (λ t. loop-looped f aim t)
  where
    after :
        (o : Forth)
        → Same s.dpth.looped o
        → ((t : Forwarding) → (forward_loop f aim t).1.dpth.looped ≡ t.dpth.looped)
        → (elim o as (λ o. Ret × Forwarding) [
          | halt r t ↦ (r, t)
          | onward t ↦ forward_loop f aim t
        ]).1.dpth.looped
          ≡ s.dpth.looped
    after (halt r t) h next = h
    after (onward t) h next = next t ∙ h

pub forward-looped :
    (aim : Aim) (fp : Stream) (dpth : Dpth) (cntr : Option Cntr)
    → (forward_sbuf aim fp dpth cntr).1.dpth.looped ≡ dpth.looped
unfolding forward_sbuf
forward-looped aim fp dpth cntr = loop-looped _ aim _
