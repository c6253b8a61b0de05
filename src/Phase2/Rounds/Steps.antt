-- ===== src/Phase2/Rounds/Steps.antt =====
-- The two lists in the loop of `backup_phase2_server` of src/backup_phase2_server.c, over any number
-- of rounds.
use mathlib.Core.List.{append_assoc}
use burp.Prelude.{
  ◌≡◌, refl, ap, ◌∙◌, sym, Bool, true, false, not, ◌||◌, Option, none, some, List, [], ◌∷◌, ◌++◌,
  arith, if-cases, All,
}
use burp.Prelude.Chars.{Bytes}
use burp.Msg.{Ret, done, ended, failed, fault, is_done, Stream}
use burp.Sbuf.{Sbuf, init_sbuf}
use burp.Sbuf.Entry.{Entry, to_sbuf}
use burp.Sbuf.Fill.{sbuf_fill_phase1}
use burp.Phase1.Forward.{Source}
use burp.Phase2.{Conf, Scan}
use burp.Phase2.Receive.{Files}
use burp.Phase2.Rounds.{
  Backup, Answer, Turn, leave, again, is_some, filled, receive_part, send_part, look_up, next_part,
  read_part, sent, received, turn, rounds, process_entry,
}
use burp.Phase2.Rounds.Placed.{Remains}
use burp.Phase2.Rounds.Left.{process_entry-Left}

-- What of the list of phase 1 is to be read; it is closed at its end.
pub data Reading (file : List Entry → Stream) (m : Option Stream) (news : List Entry) : Type 0 where
  open_at : m ≡ some (file news) → Reading file m news
  at_end : m ≡ none → news ≡ [] → Reading file m news

module _ {Old New : Entry → Type 0} (man : Source false Old) (list : Source true New) where
  -- The loop is at a place in each of the two lists.
  pub record InStep (olds news : List Entry) (m : Option Stream) (cb : Sbuf) (p1 : Option Stream)
      : Type 0 where
    pub old_gone : List Entry
    pub old_rest : List Entry
    pub old_split : olds ≡ old_gone ++ old_rest
    pub remains : Remains man m cb old_rest
    pub new_gone : List Entry
    pub new_rest : List Entry
    pub new_split : news ≡ new_gone ++ new_rest
    pub reading : Reading list.file p1 new_rest

  abbrev pub Here : List Entry → List Entry → Backup → Type 0
  Here olds news s = InStep olds news s.man s.scan.cb s.p1

  -- The same behind a round, unless the loop was left with an error.
  abbrev pub Holds : List Entry → List Entry → Turn → Type 0
  Holds olds news (again s) = Here olds news s
  Holds olds news (leave r s) = r ≡ done → Here olds news s

  abbrev Passes : List Entry → List Entry → Ret × Backup → Type 0
  Passes olds news (r, s) = Here olds news s

  All-rest : (P : Entry → Type 0) (gone rest : List Entry) → All P (gone ++ rest) → All P rest
  All-rest P [] rest h = h
  All-rest P (e ∷ gone) rest h = All-rest P gone rest h.1

  All-split :
      (P : Entry → Type 0) (all gone rest : List Entry)
      → all ≡ gone ++ rest
      → All P all
      → All P rest
  All-split P all gone rest e h = let k : All P (gone ++ rest) = rw e at h in All-rest P gone rest k

  module _ (fs : Files) (opens : Bool → Bytes → Bool) (conf : Conf) (a : Answer)
      (olds news : List Entry) (old_ok : All Old olds) (new_ok : All New news) where
    receive-Passes :
        (s : Backup) → Here olds news s → Passes olds news (receive_part fs opens conf a s)
    unfolding receive_part
    receive-Passes s h =
        if-cases (Passes olds news)
          (is_some s.last_requested || not (is_some s.p1) || filled s.writebuf) _ _ (λ e. h)
          (λ e. h)

    -- The list of phase 1 may be a step ahead.
    look_up-Holds :
        (s : Backup) (h : Here olds news s) (gone rest : List Entry)
        → news ≡ gone ++ rest
        → (p1 : Option Stream) → Reading list.file p1 rest
        → (b : Sbuf) (w : Bytes)
        → Holds olds news (
            look_up fs opens conf
              (record s { scan = record s.scan { p1b = b }; p1 = p1; writebuf = w }))
    unfolding look_up
    look_up-Holds s h gone rest q p1 reads b w =
        let t : Scan = record s.scan { p1b = b } in
        let ok = All-split Old olds h.old_gone h.old_rest h.old_split old_ok in
        if-cases (Holds olds news) (is_done (process_entry opens conf t s.man).0) _ _
          (λ d.
            let l =
              process_entry-Left man opens conf t s.man h.old_rest ok h.remains (ground arith) in
            record {
              old_gone = h.old_gone ++ l.gone;
              old_rest = l.rest;
              old_split =
                  h.old_split
                  ∙ ap (λ z. h.old_gone ++ z) l.split
                  ∙ sym (append_assoc h.old_gone l.gone l.rest);
              remains = l.remains;
              new_gone = gone;
              new_rest = rest;
              new_split = q;
              reading = reads;
            })
          (λ d r. ground (arith, d, r))

    -- An entry of phase 1 was read.
    next-Holds :
        (s : Backup) (h : Here olds news s) (e : Entry) (es : List Entry)
        → h.new_rest ≡ e ∷ es
        → Holds olds news (next_part fs opens conf a (done, to_sbuf e, list.file es) s)
    unfolding next_part
    next-Holds s h e es q =
        look_up-Holds s h (h.new_gone ++ (e ∷ [])) es
          (h.new_split ∙ ap (λ z. h.new_gone ++ z) q ∙ sym (append_assoc h.new_gone (e ∷ []) es))
          (some (list.file es)) (open_at refl) (to_sbuf e) s.writebuf

    -- The end of the list of phase 1.
    end-Holds :
        (s : Backup) (h : Here olds news s)
        → h.new_rest ≡ []
        → Holds olds news (next_part fs opens conf a (ended, list.part, list.at_end) s)
    unfolding next_part
    end-Holds s h q =
        if-cases (Holds olds news) (a.says_end s.writebuf).0 _ _
          (λ d.
            look_up-Holds s h h.new_gone [] (h.new_split ∙ ap (λ z. h.new_gone ++ z) q) none
              (at_end refl refl) list.part (a.says_end s.writebuf).1)
          (λ d r. ground (arith, r))

    -- What is read of the list of phase 1.
    abbrev by : Backup → Ret × Sbuf × Stream → Turn
    by s got = next_part fs opens conf a got s

    read-open :
        (s : Backup) (st : Stream) (got : Ret × Sbuf × Stream)
        → s.p1 ≡ some st
        → sbuf_fill_phase1 init_sbuf st ≡ got
        → read_part fs opens conf a s ≡ by s got
    unfolding read_part
    read-open s st got e f =
        ap
          (λ p. elim p as (λ (p : Option Stream). Turn) [
            | none ↦ again s
            | some st ↦ by s (sbuf_fill_phase1 init_sbuf st)
          ])
          e
        ∙ ap (by s) f

    read-closed : (s : Backup) → s.p1 ≡ none → read_part fs opens conf a s ≡ again s
    unfolding read_part
    read-closed s e =
        ap
          (λ p. elim p as (λ (p : Option Stream). Turn) [
            | none ↦ again s
            | some st ↦ by s (sbuf_fill_phase1 init_sbuf st)
          ])
          e

    open-Holds :
        (s : Backup) (h : Here olds news s) (es : List Entry)
        → h.new_rest ≡ es
        → All New es
        → s.p1 ≡ some (list.file es)
        → Holds olds news (read_part fs opens conf a s)
    open-Holds s h [] q k e = rw (read-open s (list.file []) _ e list.ends) (end-Holds s h q)
    open-Holds s h (x ∷ es) q k e =
        rw (read-open s (list.file (x ∷ es)) _ e (list.gives x es k.0)) (next-Holds s h x es q)

    read-Holds : (s : Backup) → Here olds news s → Holds olds news (read_part fs opens conf a s)
    read-Holds s h = elim h.reading [
      | open_at e ↦
          open-Holds s h h.new_rest refl
            (All-split New news h.new_gone h.new_rest h.new_split new_ok) e
      | at_end e q ↦ rw (read-closed s e) h
    ]

    sent-Holds : (x : Ret × Backup) → Passes olds news x → Holds olds news (sent fs opens conf a x)
    unfolding sent
    sent-Holds (done, s) h = read-Holds s h
    sent-Holds (ended, s) h = h
    sent-Holds (failed, s) h = λ r. h
    sent-Holds (fault, s) h = λ r. h

    received-Holds :
        (x : Ret × Backup) → Passes olds news x → Holds olds news (received fs opens conf a x)
    unfolding received send_part
    received-Holds (done, s) h = sent-Holds (send_part fs opens conf a s) h
    received-Holds (ended, s) h = λ r. h
    received-Holds (failed, s) h = λ r. h
    received-Holds (fault, s) h = λ r. h

    turn-Holds : (s : Backup) → Here olds news s → Holds olds news (turn fs opens conf a s)
    unfolding turn
    turn-Holds s h = received-Holds (receive_part fs opens conf a s) (receive-Passes s h)

  -- Over any number of rounds of the loop of `backup_phase2_server`, whatever the client sends and
  -- the files answer, unless it is left with an error: from a place in the list of phase 1 and one
  -- in the old manifest, both made of well-formed entries, it comes to places further on in both,
  -- between two entries, where the list of phase 1 is closed only at its end.
  pub rounds-Holds :
      (fs : Files) (opens : Bool → Bytes → Bool) (conf : Conf) (answers : List Answer)
      (olds news : List Entry) (s : Backup)
      → All Old olds
      → All New news
      → Here olds news s
      → Holds olds news (rounds fs opens conf answers s)
  unfolding rounds
  rounds-Holds fs opens conf [] olds news s o n h = h
  rounds-Holds fs opens conf (a ∷ answers) olds news s o n h =
      step (turn fs opens conf a s) (turn-Holds fs opens conf a olds news o n s h)
        (λ s' k. rounds-Holds fs opens conf answers olds news s' o n k)
    where
      step :
          (t : Turn)
          → Holds olds news t
          → ((s' : Backup) → Here olds news s' → Holds olds news (rounds fs opens conf answers s'))
          → Holds olds news
              (elim t [ leave r s' ↦ leave r s' | again s' ↦ rounds fs opens conf answers s' ])
      step (leave r s') k next = k
      step (again s') k next = next s' k
