-- ===== src/Net/Link.antt =====
-- Two ends of a connection of src/asyncio.c as a step relation.
use mathlib.Core.List.{append_assoc, append-nil, cons≢nil}
use burp.Prelude.{
  ℕ, zero, suc, ◌+◌, ◌-◌, ◌≤◌, ◌<◌, ◌≡◌, refl, ◌∙◌, sym, ap, true, false, none, some, List, [], ◌∷◌,
  ◌++◌, leb, length, take, drop, arith, All, All-append,
}
use burp.Prelude.Chars.{Bytes}
use burp.Msg.{Ret, done}
use burp.Net.{Received, bufmaxsize, parse_readbuf, append_all}
use burp.Hex.{print_04x}
use burp.Hex.RoundTrip.{length-print_04x, scan-print}
use burp.Net.Framing.{
  net_frame, length-net_frame, append-net_frame, parse-net_frame, parse-known, take_message-part,
  append-full, parse-few,
}

-- The write buffer of one end and the read buffer of the other; the bytes on the way are counted
-- to the first. What was appended so far, and what was parsed, in order.
pub record Pipe : Type 0 where
  pub writebuf : Bytes
  pub readbuf : Bytes
  pub sent : List (ℕ × Bytes)
  pub got : List (ℕ × Bytes)

abbrev pub IsMsg : ℕ × Bytes → Type 0
IsMsg (c, b) = (0 < c) × (length b < 65536)

-- A message is appended where there is space; some bytes arrive; or the reader parses.
pub data Step : Pipe → Pipe → Type 0 where
  append :
      {p : Pipe} (c : ℕ) (b w : Bytes)
      → IsMsg (c, b)
      → append_all c b (length b) p.writebuf ≡ (true, w)
      → Step p (record p { writebuf = w; sent = p.sent ++ (c, b) ∷ [] })
  arrive :
      {p : Pipe} (n : ℕ)
      → Step p (record p { writebuf = drop n p.writebuf; readbuf = p.readbuf ++ take n p.writebuf })
  parse :
      {p : Pipe} (m : ℕ × Bytes) (r : Bytes)
      → parse_readbuf p.readbuf ≡ (done, some m, r)
      → Step p (record p { readbuf = r; got = p.got ++ m ∷ [] })

pub data Reaches : Pipe → Pipe → Type 0 where
  here : {p : Pipe} → Reaches p p
  then : {p q r : Pipe} → Reaches p q → Step q r → Reaches p r

-- The bytes of messages.
pub all_frames : List (ℕ × Bytes) → Bytes
all_frames [] = []
all_frames ((c, b) ∷ ms) = net_frame c b ++ all_frames ms

-- Every message that was sent was parsed, or is on its way, in order.
pub record InOrder (p : Pipe) : Type 0 where
  pub pending : List (ℕ × Bytes)
  pub whole : All IsMsg pending
  pub sent_eq : p.sent ≡ p.got ++ pending
  pub bytes_eq : p.readbuf ++ p.writebuf ≡ all_frames pending

split-prefix :
    (xs ys a b : Bytes)
    → xs ++ ys ≡ a ++ b
    → length a ≤ length xs
    → (r : Bytes) × (xs ≡ a ++ r) × (r ++ ys ≡ b)
split-prefix xs ys [] b e h = (xs, refl, e)
split-prefix [] ys (c ∷ a) b e h = absurd (omega arith)
split-prefix (x ∷ xs) ys (c ∷ a) b e h =
    let t : xs ++ ys ≡ a ++ b = ap (drop 1) e in
    let (r, f, g) = split-prefix xs ys a b t (omega arith) in (r, ground arith, g)

take-drop : (n : ℕ) (xs : Bytes) → take n xs ++ drop n xs ≡ xs
take-drop zero xs = refl
take-drop (suc n) [] = refl
take-drop (suc n) (x ∷ xs) = ap (◌∷◌ x) (take-drop n xs)

all_frames-append :
    (ms : List (ℕ × Bytes)) (c : ℕ) (b : Bytes)
    → all_frames (ms ++ (c, b) ∷ []) ≡ all_frames ms ++ net_frame c b
unfolding all_frames
all_frames-append [] c b = append-nil (net_frame c b)
all_frames-append ((c', b') ∷ ms) c b =
    ap (λ t. net_frame c' b' ++ t) (all_frames-append ms c b)
    ∙ sym (append_assoc (net_frame c' b') (all_frames ms) (net_frame c b))

pub append_all-true :
    (c : ℕ) (b w w' : Bytes)
    → 0 < c
    → append_all c b (length b) w ≡ (true, w')
    → w' ≡ w ++ net_frame c b
append_all-true c b w w' h e =
    elim (leb (bufmaxsize - 1) (length w + 6 + length b))
        as (λ t. leb (bufmaxsize - 1) (length w + 6 + length b) ≡ t → w' ≡ w ++ net_frame c b) [
          | true ↦ λ f. absurd (append-full c b w w' f e)
          | false ↦ λ f. sym (ap (λ r. r.1) (sym (append-net_frame c b w h (ground arith)) ∙ e))
        ]
      refl

-- What is not there whole is not taken.
parse-part :
    (c : ℕ) (b buf ys rest : Bytes)
    → IsMsg (c, b)
    → buf ++ ys ≡ net_frame c b ++ rest
    → length buf < length (net_frame c b)
    → parse_readbuf buf ≡ (done, none, buf)
parse-part c b buf ys rest (h, n) e l =
    elim (leb 5 (length buf))
        as (λ t. leb 5 (length buf) ≡ t → parse_readbuf buf ≡ (done, none, buf)) [
          | true ↦ λ f.
              let m = length-net_frame c b n in
              let (r, g, k) =
                split-prefix buf ys (c ∷ print_04x (length b)) (b ++ rest)
                  (e ∙ append_assoc (c ∷ print_04x (length b)) b rest)
                  (let d = length-print_04x (length b) n in ground arith) in
              parse-known buf c (length b) (ground arith) (rw g (scan-print c (length b) r h n))
              ∙ take_message-part c (length b) buf n (omega arith)
          | false ↦ λ f. parse-few buf f
        ]
      refl

parsed-not :
    (buf buf' : Bytes) (m : ℕ × Bytes) (r : Bytes)
    → parse_readbuf buf ≡ (done, none, buf')
    → parse_readbuf buf ≡ (done, some m, r)
    → ⊥
parsed-not buf buf' m r e f =
    let z : ◌≡◌ {A = Ret × Received × Bytes} (done, none, buf') (done, some m, r) = sym e ∙ f in
    ground arith

abbrev from_some : ℕ × Bytes → Received → ℕ × Bytes
from_some d none = d
from_some d (some m) = m

-- What is parsed is the first message that is pending.
parse-pending :
    (ps : List (ℕ × Bytes)) (buf ys r : Bytes) (m : ℕ × Bytes)
    → All IsMsg ps
    → buf ++ ys ≡ all_frames ps
    → parse_readbuf buf ≡ (done, some m, r)
    → (rest : List (ℕ × Bytes)) × (ps ≡ m ∷ rest) × (r ++ ys ≡ all_frames rest)
unfolding all_frames
parse-pending [] [] ys r m w e p = absurd (parsed-not [] [] m r (parse-few [] refl) p)
parse-pending [] (x ∷ buf) ys r m w e p = absurd (cons≢nil e)
parse-pending ((c, b) ∷ ps) buf ys r m w e p =
    elim (leb (length (net_frame c b)) (length buf))
        as (λ t.
          leb (length (net_frame c b)) (length buf) ≡ t
          → (rest : List (ℕ × Bytes)) × ((c, b) ∷ ps ≡ m ∷ rest) × (r ++ ys ≡ all_frames rest)) [
            | true ↦ λ f.
                let (s, g, k) =
                  split-prefix buf ys (net_frame c b) (all_frames ps) e (ground arith) in
                let q : parse_readbuf buf ≡ (done, some (c, b), s) =
                  ap parse_readbuf g ∙ parse-net_frame c b s w.0.0 w.0.1 in
                let z : ◌≡◌ {A = Ret × Received × Bytes} (done, some (c, b), s) (done, some m, r) =
                  sym q ∙ p in
                let em : (c, b) ≡ m = ap (λ t. from_some (c, b) t.1) z in
                let es : s ≡ r = ap (λ t. t.2) z in
                (ps, ap (λ x. x ∷ ps) em, ap (λ t. t ++ ys) (sym es) ∙ k)
            | false ↦ λ f. absurd (
                parsed-not buf buf m r (parse-part c b buf ys (all_frames ps) w.0 e (ground arith))
                  p)
          ]
      refl

Step-InOrder : {p q : Pipe} → Step p q → InOrder p → InOrder q
Step-InOrder {p} (append c b w m e) h = record {
  pending = h.pending ++ (c, b) ∷ [];
  whole = All-append IsMsg h.pending ((c, b) ∷ []) h.whole (m, tt);
  sent_eq = ap (λ t. t ++ (c, b) ∷ []) h.sent_eq ∙ append_assoc p.got h.pending ((c, b) ∷ []);
  bytes_eq =
      ap (λ t. p.readbuf ++ t) (append_all-true c b p.writebuf w m.0 e)
      ∙ sym (append_assoc p.readbuf p.writebuf (net_frame c b))
      ∙ ap (λ t. t ++ net_frame c b) h.bytes_eq
      ∙ sym (all_frames-append h.pending c b);
}
Step-InOrder {p} (arrive n) h = record {
  pending = h.pending;
  whole = h.whole;
  sent_eq = h.sent_eq;
  bytes_eq =
      append_assoc p.readbuf (take n p.writebuf) (drop n p.writebuf)
      ∙ ap (λ t. p.readbuf ++ t) (take-drop n p.writebuf)
      ∙ h.bytes_eq;
}
Step-InOrder {p} (parse m r e) h =
    let (rest, f, g) = parse-pending h.pending p.readbuf p.writebuf r m h.whole h.bytes_eq e in
    let w : All IsMsg (m ∷ rest) = rw f at h.whole in
    record {
      pending = rest;
      whole = w.1;
      sent_eq = h.sent_eq ∙ ap (λ t. p.got ++ t) f ∙ sym (append_assoc p.got (m ∷ []) rest);
      bytes_eq = g;
    }

abbrev pub empty : Pipe
empty = record { writebuf = []; readbuf = []; sent = []; got = [] }

Reaches-InOrder : {p q : Pipe} → Reaches p q → InOrder p → InOrder q
Reaches-InOrder here h = h
Reaches-InOrder (then r s) h = Step-InOrder s (Reaches-InOrder r h)

-- From empty buffers, however messages (of a command that is not NUL and less than 65536 bytes)
-- are appended, bytes move to the reader, and the reader parses: the messages that were parsed are
-- the first of those that were sent, and the read buffer followed by the write buffer holds
-- exactly the frames of the others, in order.
pub link-InOrder : (q : Pipe) → Reaches empty q → InOrder q
unfolding all_frames
link-InOrder q r =
    Reaches-InOrder r (record { pending = []; whole = tt; sent_eq = refl; bytes_eq = refl })
