-- ===== src/Util/JsonDatagramSocket/Reading.antt =====
-- util/json_datagram_socket.ts: about the messages of a stream that is cut into chunks.
use genie_cloud.Base.{
  ℕ, Bool, true, false, List, [], ◌∷◌, ◌++◌, append-nil, append_assoc, Option, none, some,
  some-injective, Text, split, cons_part, if◌then◌else◌, ◌==◌, All, ◌≡◌, ◌≢◌, refl, sym, ap, ap₂,
  ◌∙◌, subst, ◌⊎◌, inl, inr, arith,
}
use genie_cloud.Util.JsonDatagramSocket.{
  newline, Socket, new, read_line, read_lines, read_partial, try_read, try_read_message, on_data,
  write, on_chunks, write_all,
}

cons_injective : {a b : ℕ} {s t : Text} → a ∷ s ≡ b ∷ t → (a ≡ b) × (s ≡ t)
cons_injective h = (cc, cc)

-- Of two ways to cut a text, one is the earlier.
append_cases :
    (a b c d : Text)
    → a ++ b ≡ c ++ d
    → ((e : Text) × (a ≡ c ++ e) × (d ≡ e ++ b)) ⊎ ((e : Text) × (c ≡ a ++ e) × (b ≡ e ++ d))
append_cases [] b c d h = inr (c, refl, h)
append_cases (x ∷ a) b [] d h = inl (x ∷ a, refl, sym h)
append_cases (x ∷ a) b (y ∷ c) d h =
    let (p, q) = cons_injective h in
    elim (append_cases a b c d q) [
      | inl (e, u, v) ↦ inl (e, ap₂ (λ z s. z ∷ s) p u, v)
      | inr (e, u, v) ↦ inr (e, ap₂ (λ z s. z ∷ s) (sym p) u, v)
    ]

-- A text of one line.
abbrev pub OneLine : Text → Type 0
OneLine s = All (λ c. c ≢ newline) s

split-OneLine : (s : Text) → OneLine s → split newline s ≡ s ∷ []
unfolding split
split-OneLine [] h = refl
split-OneLine (c ∷ s) h = let rest = split-OneLine s h.1 in let ne = h.0 in ground (arith, rest, ne)

split-line : (s t : Text) → OneLine s → split newline (s ++ newline ∷ t) ≡ s ∷ split newline t
unfolding split
split-line [] t h = refl
split-line (c ∷ s) t h = let rest = split-line s t h.1 in let ne = h.0 in ground (arith, rest, ne)

split-not_empty : (s : Text) → split newline s ≢ []
unfolding split
split-not_empty [] h = cc
split-not_empty (c ∷ s) h = not_empty (c == newline) (split newline s) h
  where
    not_empty : (b : Bool) (ls : List Text) → (if b then [] ∷ ls else cons_part c ls) ≢ []
    not_empty true ls h = cc
    not_empty false [] h = cc
    not_empty false (l ∷ ls) h = cc

module _ {Msg : Type 0} (json_parse : Text → Option Msg) (json_stringify : Msg → Text) where
  -- What JSON objects are: no line end in the text, which parses, while a beginning of it does not.
  pub record Json : Type 0 where
    pub one_line : (m : Msg) → OneLine (json_stringify m)
    pub not_empty : (m : Msg) → json_stringify m ≢ []
    pub parses : (m : Msg) → json_parse (json_stringify m) ≡ some m
    pub cut :
        (m : Msg) (p q : Text) → json_stringify m ≡ p ++ q → p ≢ [] → q ≢ [] → json_parse p ≡ none

  -- The text of a list of messages.
  abbrev pub stream : List Msg → Text
  stream [] = []
  stream (m ∷ ms) = json_stringify m ++ newline ∷ stream ms

  read_lines-cons :
      (line : Text) (ls : List Text)
      → ls ≢ []
      → read_lines json_parse (line ∷ ls)
        ≡ (read_line json_parse line ++ (read_lines json_parse ls).0, (read_lines json_parse ls).1)
  unfolding read_lines
  read_lines-cons line [] ne = absurd (ne refl)
  read_lines-cons line (l ∷ ls) ne = refl

  try_read-line :
      (line t : Text)
      → OneLine line
      → try_read json_parse (line ++ newline ∷ t)
        ≡ (read_line json_parse line ++ (try_read json_parse t).0, (try_read json_parse t).1)
  unfolding try_read
  try_read-line line t h = rw (split-line line t h) (
      rw (read_lines-cons line (split newline t) (split-not_empty t)) (
        ap (λ l. (l, (read_partial json_parse (read_lines json_parse (split newline t)).1).1))
          (append_assoc (read_line json_parse line) (read_lines json_parse (split newline t)).0
            (read_partial json_parse (read_lines json_parse (split newline t)).1).0)))

  try_read-cut :
      (c : ℕ) (s : Text)
      → OneLine (c ∷ s)
      → json_parse (c ∷ s) ≡ none
      → try_read json_parse (c ∷ s) ≡ ([], c ∷ s)
  unfolding try_read read_lines read_partial
  try_read-cut c s h e = rw (split-OneLine (c ∷ s) h) (rw e refl)

  try_read-whole :
      (s : Text) (m : Msg)
      → s ≢ []
      → OneLine s
      → json_parse s ≡ some m
      → try_read json_parse s ≡ (m ∷ [], [])
  unfolding try_read read_lines read_partial
  try_read-whole [] m ne h e = absurd (ne refl)
  try_read-whole (c ∷ s) m ne h e = rw (split-OneLine (c ∷ s) h) (rw e refl)

  read_line-whole :
      (s : Text) (m : Msg) → s ≢ [] → json_parse s ≡ some m → read_line json_parse s ≡ m ∷ []
  unfolding read_line
  read_line-whole [] m ne e = absurd (ne refl)
  read_line-whole (c ∷ s) m ne e = rw (e, read_line) refl

  -- What a reader still has to see: the messages, the partial message and the text to come.
  data State : List Msg → Text → Text → Type 0 where
    in_line : (ms : List Msg) (p r : Text) → OneLine p → p ++ r ≡ stream ms → State ms p r
    -- the message was emitted before its line end came
    early : (ms : List Msg) → State ms [] (newline ∷ stream ms)

  -- Reading `t` emits the first of the messages, and leaves a state of the others.
  record Progress (ms : List Msg) (t r : Text) : Type 0 where
    seen : List Msg
    left : List Msg
    all : ms ≡ seen ++ left
    emits : (try_read json_parse t).0 ≡ seen
    state : State left (try_read json_parse t).1 r

  OneLine-left : (a b : Text) → OneLine (a ++ b) → OneLine a
  OneLine-left [] b h = tt
  OneLine-left (c ∷ a) b h = (h.0, OneLine-left a b h.1)

  Progress-eq :
      {ms : List Msg} {t r : Text} (read : List Msg × Text)
      → try_read json_parse t ≡ read
      → (left : List Msg) → ms ≡ read.0 ++ left
      → State left read.1 r
      → Progress ms t r
  Progress-eq {r = r} read e left a st = record {
    seen = read.0;
    left = left;
    all = a;
    emits = ap (λ x. x.0) e;
    state = subst (λ x. State left x.1 r) (sym e) st;
  }

  try_read-empty : try_read json_parse [] ≡ ([], [])
  unfolding try_read read_lines read_partial split
  try_read-empty = refl

  skip_line : (ms : List Msg) (x r : Text) → Progress ms x r → Progress ms (newline ∷ x) r
  unfolding read_line
  skip_line ms x r b =
      Progress-eq (try_read json_parse x) (try_read-line [] x tt) b.left
        (b.all ∙ ap (λ l. l ++ b.left) (sym b.emits)) b.state

  no_end : (s t : Text) → ¬ OneLine (s ++ newline ∷ t)
  no_end [] t h = h.0 refl
  no_end (c ∷ s) t h = no_end s t h.1

  module _ (json : Json) where
    -- A text inside the next message.
    inside :
        (m : Msg) (ms : List Msg) (t q r : Text)
        → json_stringify m ≡ t ++ q
        → r ≡ q ++ newline ∷ stream ms
        → Progress (m ∷ ms) t r
    inside m ms [] q r e f =
        Progress-eq ([], []) try_read-empty (m ∷ ms) refl
          (in_line (m ∷ ms) [] r tt (f ∙ ap (λ z. z ++ newline ∷ stream ms) (sym e)))
    inside m ms (c ∷ t) [] r e f =
        let whole = e ∙ append-nil (c ∷ t) in
        Progress-eq (m ∷ [], [])
          (try_read-whole (c ∷ t) m (λ h. cc) (subst OneLine whole (json.one_line m))
            (subst (λ z. json_parse z ≡ some m) whole (json.parses m)))
          ms refl (subst (λ z. State ms [] z) (sym f) (early ms))
    inside m ms (c ∷ t) (d ∷ q) r e f =
        let one = OneLine-left (c ∷ t) (d ∷ q) (subst OneLine e (json.one_line m)) in
        Progress-eq ([], c ∷ t)
          (try_read-cut c t one (json.cut m (c ∷ t) (d ∷ q) e (λ h. cc) (λ h. cc))) (m ∷ ms) refl
          (in_line (m ∷ ms) (c ∷ t) r one (
            ap (λ z. (c ∷ t) ++ z) f
            ∙ sym (append_assoc (c ∷ t) (d ∷ q) (newline ∷ stream ms))
            ∙ ap (λ z. z ++ newline ∷ stream ms) (sym e)))

    after_line :
        (m : Msg) (ms : List Msg) (x r : Text)
        → Progress ms x r
        → Progress (m ∷ ms) (json_stringify m ++ newline ∷ x) r
    after_line m ms x r b =
        Progress-eq (m ∷ (try_read json_parse x).0, (try_read json_parse x).1)
          (try_read-line (json_stringify m) x (json.one_line m)
            ∙ ap (λ l. (l ++ (try_read json_parse x).0, (try_read json_parse x).1))
                (read_line-whole (json_stringify m) m (json.not_empty m) (json.parses m)))
          b.left (ap (λ l. m ∷ l) (b.all ∙ ap (λ l. l ++ b.left) (sym b.emits))) b.state

    past :
        (m : Msg) (ms : List Msg)
        → ((t r : Text) → t ++ r ≡ stream ms → Progress ms t r)
        → (t r x : Text) → t ≡ json_stringify m ++ x
        → newline ∷ stream ms ≡ x ++ r
        → Progress (m ∷ ms) t r
    past m ms step t r [] u v =
        inside m ms t [] r (sym (append-nil (json_stringify m)) ∙ sym u ∙ sym (append-nil t))
          (sym v)
    past m ms step t r (d ∷ x) u v =
        let (a, b) = cons_injective v in
        subst (λ z. Progress (m ∷ ms) z r) (ap (λ z. json_stringify m ++ z ∷ x) a ∙ sym u)
          (after_line m ms x r (step x r (sym b)))

    read_step : (ms : List Msg) (t r : Text) → t ++ r ≡ stream ms → Progress ms t r
    read_step [] [] r e = Progress-eq ([], []) try_read-empty [] refl (in_line [] [] r tt e)
    read_step [] (c ∷ t) r e = cc
    read_step (m ∷ ms) t r e = elim (append_cases t r (json_stringify m) (newline ∷ stream ms) e) [
      | inr (q, u, v) ↦ inside m ms t q r u v
      | inl (x, u, v) ↦ past m ms (read_step ms) t r x u v
    ]

    chunk_step :
        (ms : List Msg) (p c r z : Text) → State ms p z → z ≡ c ++ r → Progress ms (p ++ c) r
    chunk_step _ _ c r _ (in_line ms p z h e) q =
        read_step ms (p ++ c) r (append_assoc p c r ∙ ap (λ y. p ++ y) (sym q) ∙ e)
    chunk_step _ _ [] r _ (early ms) q =
        Progress-eq ([], []) try_read-empty ms refl (subst (λ z. State ms [] z) q (early ms))
    chunk_step _ _ (d ∷ c) r _ (early ms) q =
        let (a, b) = cons_injective q in
        subst (λ z. Progress ms (z ∷ c) r) a (skip_line ms c r (read_step ms c r (sym b)))

    done : (ms : List Msg) (p z : Text) → State ms p z → z ≡ [] → (ms ≡ []) × (p ≡ [])
    done _ _ _ (in_line [] p z h e) q = (refl, sym (append-nil p) ∙ ap (λ y. p ++ y) (sym q) ∙ e)
    done _ _ _ (in_line (m ∷ ms) p z h e) q =
        let whole = sym (append-nil p) ∙ ap (λ y. p ++ y) (sym q) ∙ e in
        absurd (no_end (json_stringify m) (stream ms) (subst OneLine whole h))
    done _ _ _ (early ms) q = cc

    -- The chunks of a text.
    abbrev pub joined : List Text → Text
    joined [] = []
    joined (c ∷ cs) = c ++ joined cs

    read_chunk : Socket Msg → Text → Socket Msg
    read_chunk s c = record s {
      partial_message = (try_read json_parse (s.partial_message ++ c)).1;
      emitted = s.emitted ++ (try_read json_parse (s.partial_message ++ c)).0;
    }

    on_data-live :
        (s : Socket Msg) (c : Text) → s.reader ≡ true → on_data json_parse s c ≡ read_chunk s c
    unfolding on_data try_read_message read_chunk
    on_data-live s c e = rw e refl

    on_chunks-State :
        (cs : List Text) (ms : List Msg) (s : Socket Msg)
        → s.reader ≡ true
        → State ms s.partial_message (joined cs)
        → ((on_chunks json_parse s cs).emitted ≡ s.emitted ++ ms)
          × ((on_chunks json_parse s cs).partial_message ≡ [])
    unfolding on_chunks read_chunk
    on_chunks-State [] ms s live st =
        let (a, b) = done ms s.partial_message [] st refl in
        (sym (append-nil s.emitted) ∙ ap (λ l. s.emitted ++ l) (sym a), b)
    on_chunks-State (c ∷ cs) ms s live st =
        let b = chunk_step ms s.partial_message c (joined cs) _ st refl in
        let (u, v) = on_chunks-State cs b.left (read_chunk s c) live b.state in
        rw (on_data-live s c live, on_chunks)
          (
            u
                ∙ append_assoc s.emitted _ b.left
                ∙ ap (λ l. s.emitted ++ l) (ap (λ l. l ++ b.left) b.emits ∙ sym b.all),
            v,
          )

    write-writer :
        (s : Socket Msg) (m : Msg) (sent : Text)
        → s.writer ≡ some sent
        → (write json_stringify s m).writer ≡ some (sent ++ json_stringify m ++ newline ∷ [])
    unfolding write
    write-writer s m sent e = rw e refl

    write_all-stream :
        (ms : List Msg) (s : Socket Msg) (sent : Text)
        → s.writer ≡ some sent
        → (write_all json_stringify s ms).writer ≡ some (sent ++ stream ms)
    unfolding write_all
    write_all-stream [] s sent e = e ∙ ap some (sym (append-nil sent))
    write_all-stream (m ∷ ms) s sent e =
        write_all-stream ms (write json_stringify s m) (sent ++ json_stringify m ++ newline ∷ [])
          (write-writer s m sent e)
        ∙ ap some (
            append_assoc (sent ++ json_stringify m) (newline ∷ []) (stream ms)
            ∙ append_assoc sent (json_stringify m) (newline ∷ stream ms))

    -- However the text that `write` sent for the messages is cut into chunks, a reader of the chunks
    -- emits exactly the messages, in order, and is left with no partial message; for messages whose
    -- texts are single lines that parse while their beginnings do not.
    pub on_chunks-write_all :
        (ms : List Msg) (chunks : List Text)
        → (write_all json_stringify new ms).writer ≡ some (joined chunks)
        → ((on_chunks json_parse new chunks).emitted ≡ ms)
          × ((on_chunks json_parse new chunks).partial_message ≡ [])
    unfolding new
    on_chunks-write_all ms chunks e =
        let same = some-injective _ _ (sym e ∙ write_all-stream ms new [] refl) in
        on_chunks-State chunks ms new refl (in_line ms [] (joined chunks) tt same)
