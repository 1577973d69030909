-- ===== src/Util/Mturk/Gathering.antt =====
-- util/mturk.ts: about the groups that the accumulator pushes.
use genie_cloud.Base.{
  ℕ, ◌≡◌, refl, sym, ap, ◌∙◌, Bool, true, false, not, ◌&&◌, List, [], ◌∷◌, ◌++◌, map, append-nil,
  append_assoc, Option, none, some, All, subst, Text, if-elim, ==_iff, arith,
}
use genie_cloud.Util.Mturk.{
  UnvalidatedRow, Group, empty_group, flush_of, do_flush, with_row, same_id, transform, accumulate,
}

-- The paraphrases of a group, each with the id of the sentence.
abbrev pub Entry : Type 0
Entry = Option ℕ × (ℕ × Text)

abbrev pub entries : Option ℕ → List (ℕ × Text) → List Entry
entries id [] = []
entries id (p ∷ ps) = (id, p) ∷ entries id ps

unfoldable pub ungroup : List Group → List Entry
ungroup [] = []
ungroup (g ∷ gs) = entries g.synthetic_id g.paraphrases ++ ungroup gs

unfoldable pub entry : UnvalidatedRow → Entry
entry row = (some row.synthetic_id, (row.paraphrase_id, row.utterance))

abbrev pub is_nil {ℓ} : {A : Type ℓ} → List A → Bool
is_nil [] = true
is_nil (x ∷ xs) = false

-- Whether the id is there, and another one than that of the group before.
abbrev pub is_next : Option ℕ → Option ℕ → Bool
is_next before none = false
is_next before (some n) = not (same_id before n)

-- Whether no group is empty, and no two neighbours have one id.
unfoldable pub well_grouped : Option ℕ → List Group → Bool
well_grouped before [] = true
well_grouped before (g ∷ gs) =
    not (is_nil g.paraphrases) && is_next before g.synthetic_id && well_grouped g.synthetic_id gs

entries-append :
    (id : Option ℕ) (ps qs : List (ℕ × Text))
    → entries id (ps ++ qs) ≡ entries id ps ++ entries id qs
entries-append id [] qs = refl
entries-append id (p ∷ ps) qs = ap (λ es. (id, p) ∷ es) (entries-append id ps qs)

ungroup-flush :
    (ps : List (ℕ × Text)) (acc : Group)
    → acc.paraphrases ≡ ps
    → ungroup (flush_of ps acc).0 ≡ entries acc.synthetic_id ps
unfolding ungroup
ungroup-flush [] acc h = refl
ungroup-flush (p ∷ ps) acc h = rw h (append-nil _)

-- What is pushed with what is pending, whatever was flushed.
Pushed : UnvalidatedRow → List UnvalidatedRow → Group → List Group × Group → Type 0
Pushed row rows acc flushed =
    ungroup (flushed.0 ++ accumulate (with_row row flushed.1.paraphrases) rows)
    ≡ entries acc.synthetic_id acc.paraphrases ++ map entry (row ∷ rows)

same_id-eq : (o : Option ℕ) (n : ℕ) → same_id o n ≡ true → o ≡ some n
same_id-eq none n h = absurd (ground arith)
same_id-eq (some m) n h = ap some ((==_iff m n).0 h)

one_more :
    (id : Option ℕ) (row : UnvalidatedRow) (ps : List (ℕ × Text)) (es : List Entry)
    → id ≡ some row.synthetic_id
    → entries (some row.synthetic_id) (ps ++ (row.paraphrase_id, row.utterance) ∷ []) ++ es
      ≡ entries id ps ++ entry row ∷ es
unfolding entry
one_more id row ps es h =
    subst
      (λ i.
        entries (some row.synthetic_id) (ps ++ (row.paraphrase_id, row.utterance) ∷ []) ++ es
        ≡ entries i ps ++ entry row ∷ es)
      (sym h)
      (ap (λ xs. xs ++ es)
          (entries-append (some row.synthetic_id) ps ((row.paraphrase_id, row.utterance) ∷ []))
        ∙ append_assoc (entries (some row.synthetic_id) ps) (entry row ∷ []) es)

-- What a run from any accumulator pushes.
abbrev Runs : List UnvalidatedRow → Type 0
Runs rows =
    (acc : Group)
    → ungroup (accumulate acc rows) ≡ entries acc.synthetic_id acc.paraphrases ++ map entry rows

Pushed-flush :
    (row : UnvalidatedRow) (rows : List UnvalidatedRow) (ps : List (ℕ × Text)) (acc : Group)
    → Runs rows
    → acc.paraphrases ≡ ps
    → Pushed row rows acc (flush_of ps acc)
unfolding Pushed ungroup entry
Pushed-flush row rows [] acc runs h = rw h (runs (with_row row []))
Pushed-flush row rows (p ∷ ps) acc runs h =
    ap (λ es. entries acc.synthetic_id acc.paraphrases ++ es) (runs (with_row row []))

accumulate-entries : (rows : List UnvalidatedRow) → Runs rows
unfolding accumulate do_flush Pushed
accumulate-entries [] acc = ungroup-flush acc.paraphrases acc refl ∙ sym (append-nil _)
accumulate-entries (row ∷ rows) acc =
    if-elim (Pushed row rows acc) (same_id acc.synthetic_id row.synthetic_id) {x = ([], acc)}
      {y = flush_of acc.paraphrases acc}
      (λ e.
        accumulate-entries rows (with_row row acc.paraphrases)
        ∙ one_more acc.synthetic_id row acc.paraphrases (map entry rows) (same_id-eq _ _ e))
      (λ e. Pushed-flush row rows acc.paraphrases acc (accumulate-entries rows) refl)

-- An accumulator that holds some paraphrases, of another sentence than the group before.
record Pending (before : Option ℕ) (acc : Group) : Type 0 where
  full : not (is_nil acc.paraphrases) ≡ true
  next : is_next before acc.synthetic_id ≡ true

not_nil-append : {A : Type 0} (xs : List A) (x : A) → not (is_nil (xs ++ x ∷ [])) ≡ true
not_nil-append [] x = refl
not_nil-append (y ∷ xs) x = refl

flush-full :
    (ps : List (ℕ × Text)) (acc : Group)
    → not (is_nil ps) ≡ true
    → flush_of ps acc ≡ (acc ∷ [], record acc { paraphrases = [] })
flush-full [] acc h = absurd (ground arith)
flush-full (p ∷ ps) acc h = refl

alone :
    (before : Option ℕ) (acc : Group) → Pending before acc → well_grouped before (acc ∷ []) ≡ true
unfolding well_grouped
alone before acc h = rw (h.full, h.next) refl

-- From an accumulator that holds some paraphrases, only groups as they should be are pushed.
accumulate-grouped :
    (rows : List UnvalidatedRow) (before : Option ℕ) (acc : Group)
    → Pending before acc
    → well_grouped before (accumulate acc rows) ≡ true
unfolding accumulate do_flush well_grouped
accumulate-grouped [] before acc h =
    subst (λ (f : List Group × Group). well_grouped before f.0 ≡ true)
      (sym (flush-full acc.paraphrases acc h.full)) (alone before acc h)
accumulate-grouped (row ∷ rows) before acc h =
    if-elim
      (λ (flushed : List Group × Group).
        well_grouped before (flushed.0 ++ accumulate (with_row row flushed.1.paraphrases) rows)
        ≡ true)
      (same_id acc.synthetic_id row.synthetic_id) {x = ([], acc)} {y = flush_of acc.paraphrases acc}
      (λ e. accumulate-grouped rows before (with_row row acc.paraphrases) (record {
        full = not_nil-append acc.paraphrases _;
        next = subst (λ o. is_next before o ≡ true) (same_id-eq _ _ e) h.next;
      }))
      (λ e.
        let rest =
          accumulate-grouped rows acc.synthetic_id (with_row row [])
            (record { full = refl; next = rw e refl }) in
        rw (flush-full acc.paraphrases acc h.full, h.full, h.next, rest) refl)

abbrev of_id : (ℕ → Text) → Option ℕ → Option Text
of_id text none = none
of_id text (some id) = some (text id)

-- Whether a group has the sentence and the code of its id.
abbrev pub HasSentence : (ℕ → Text) → (ℕ → Text) → Group → Type 0
HasSentence text code g =
    (g.synthetic ≡ of_id text g.synthetic_id) × (g.target_code ≡ of_id code g.synthetic_id)

abbrev pub RowHasSentence : (ℕ → Text) → (ℕ → Text) → UnvalidatedRow → Type 0
RowHasSentence text code row =
    (row.synthetic ≡ text row.synthetic_id) × (row.target_code ≡ code row.synthetic_id)

module _ (text code : ℕ → Text) where
  flush-sentences :
      (ps : List (ℕ × Text)) (acc : Group) (gs : List Group)
      → HasSentence text code acc
      → All (HasSentence text code) gs
      → All (HasSentence text code) ((flush_of ps acc).0 ++ gs)
  flush-sentences [] acc gs h hs = hs
  flush-sentences (p ∷ ps) acc gs h hs = (h, hs)

  accumulate-sentences :
      (rows : List UnvalidatedRow) (acc : Group)
      → HasSentence text code acc
      → All (RowHasSentence text code) rows
      → All (HasSentence text code) (accumulate acc rows)
  unfolding accumulate do_flush
  accumulate-sentences [] acc h hs =
      subst (All (HasSentence text code)) (append-nil _)
        (flush-sentences acc.paraphrases acc [] h tt)
  accumulate-sentences (row ∷ rows) acc h (k, hs) =
      let later : (ps : List (ℕ × Text))
          → All (HasSentence text code) (accumulate (with_row row ps) rows) =
        λ ps. accumulate-sentences rows (with_row row ps) (ap some k.0, ap some k.1) hs in
      if-elim
        (λ (flushed : List Group × Group).
          All (HasSentence text code)
            (flushed.0 ++ accumulate (with_row row flushed.1.paraphrases) rows))
        (same_id acc.synthetic_id row.synthetic_id) {x = ([], acc)}
        {y = flush_of acc.paraphrases acc} (λ e. later acc.paraphrases)
        (λ e. flush-sentences acc.paraphrases acc _ h (later _))

-- Where the sentence and the code of a row are those of its id, the groups that the accumulator pushes
-- hold the paraphrases of the rows, each under the id of its row and in their order; every group has
-- an id, the sentence and the code of that id, and some paraphrases, and neighbours have different
-- ids.
pub accumulate-groups :
    (text code : ℕ → Text) (rows : List UnvalidatedRow)
    → All (RowHasSentence text code) rows
    → (ungroup (accumulate empty_group rows) ≡ map entry rows)
      × (well_grouped none (accumulate empty_group rows) ≡ true)
      × All (HasSentence text code) (accumulate empty_group rows)
unfolding accumulate transform do_flush empty_group well_grouped
accumulate-groups text code [] hs = (accumulate-entries [] empty_group, refl, tt)
accumulate-groups text code (row ∷ rows) hs = (
  accumulate-entries (row ∷ rows) empty_group,
  accumulate-grouped rows none (with_row row []) (record { full = refl; next = refl }),
  accumulate-sentences text code (row ∷ rows) empty_group (refl, refl) hs,
)
