-- ===== src/Training/Daemon/Fails.antt =====
-- training/daemon.js: the relation of the rows before and after a failure, and the runs that keep it.
use genie_cloud.Base.{
  ℕ, ◌<◌, ◌≡◌, refl, sym, ◌∙◌, subst, ◌⊎◌, inl, inr, Bool, true, false, not, ◌&&◌, ◌||◌, List, [],
  ◌∷◌, Option, none, some, ◌==◌, All, Zip, Zip-trans, Zip-All, Zip-refl, arith,
}
use genie_cloud.Training.Jobs.{Row}
use genie_cloud.Training.Daemon.{State, is_error, each}

-- What becomes of a row where a job fails: it keeps its id, an error stays one, and it keeps what it
-- waits for or has failed.
pub record Fails (r r' : Row) : Type 0 where
  pub same_id : r'.id ≡ r.id
  pub stays : (is_error r.status && not (is_error r'.status)) ≡ false
  pub link : (r'.depends_on ≡ r.depends_on) ⊎ ((r'.depends_on ≡ none) × (is_error r'.status ≡ true))

pub chained : (a b c : Bool) → (a && not b) ≡ false → (b && not c) ≡ false → (a && not c) ≡ false
chained true true c h k = k
chained true false c h k = ground arith
chained false b c h k = refl

pub forced : (a b : Bool) → (a && not b) ≡ false → a ≡ true → b ≡ true
forced true true h k = refl
forced true false h k = ground arith
forced false b h k = ground arith

pub reached : (a b : Bool) → b ≡ true → (a && not b) ≡ false
reached true true h = refl
reached false true h = refl
reached a false h = ground arith

pub Fails-refl : (x : Row) → Fails x x
Fails-refl x = record { same_id = refl; stays = both (is_error x.status); link = inl refl }
  where
    both : (a : Bool) → (a && not a) ≡ false
    both true = refl
    both false = refl

pub Fails-trans : (x y z : Row) → Fails x y → Fails y z → Fails x z
Fails-trans x y z h k = record {
  same_id = k.same_id ∙ h.same_id;
  stays = chained _ _ _ h.stays k.stays;
  link = elim k.link [
    | inl e ↦ elim h.link [ inl e' ↦ inl (e ∙ e') | inr p ↦ inr (e ∙ p.0, forced _ _ k.stays p.1) ]
    | inr p ↦ inr p
  ];
}

-- What a row waits for has a smaller id.
abbrev pub Earlier : ℕ → Option ℕ → Type 0
Earlier id none = Unit
Earlier id (some d) = d < id

-- Ids are below a bound, and a row waits for an earlier one.
pub record InOrder (bound : ℕ) (r : Row) : Type 0 where
  pub below : r.id < bound
  pub earlier : Earlier r.id r.depends_on

Fails-InOrder : (bound : ℕ) (r r' : Row) → Fails r r' → InOrder bound r → InOrder bound r'
Fails-InOrder bound r r' f o = record {
  below = omega (arith, f.same_id, o.below);
  earlier = elim f.link [
    | inl e ↦
        subst (λ i. Earlier i r'.depends_on) (sym f.same_id)
          (subst (Earlier r.id) (sym e) o.earlier)
    | inr p ↦ subst (Earlier r'.id) (sym p.0) tt
  ];
}

unfoldable pub named : ℕ → List Row → Bool
named id [] = false
named id (d ∷ ds) = (d.id == id) || named id ds

-- A row of the named ones is an error.
abbrev pub Marked : List Row → Row → Type 0
Marked ds r = (named r.id ds && not (is_error r.status)) ≡ false

Fails-Marked : (ds : List Row) (r r' : Row) → Fails r r' → Marked ds r → Marked ds r'
Fails-Marked ds r r' f m =
    chained _ _ _ (subst (λ i. (named i ds && not (is_error r.status)) ≡ false) (sym f.same_id) m)
      f.stays

pub Rows-InOrder :
    (bound : ℕ) (rs rs' : List Row)
    → Zip Fails rs rs'
    → All (InOrder bound) rs
    → All (InOrder bound) rs'
Rows-InOrder bound = Zip-All Fails (InOrder bound) (InOrder bound) (Fails-InOrder bound)

pub Rows-Marked :
    (ds : List Row) (rs rs' : List Row)
    → Zip Fails rs rs'
    → All (Marked ds) rs
    → All (Marked ds) rs'
Rows-Marked ds = Zip-All Fails (Marked ds) (Marked ds) (Fails-Marked ds)

Marked-cons :
    (d : Row) (ds : List Row) (rs : List Row)
    → All (Marked (d ∷ [])) rs
    → All (Marked ds) rs
    → All (Marked (d ∷ ds)) rs
unfolding named
Marked-cons d ds [] a b = tt
Marked-cons d ds (r ∷ rs) a b =
    (join (d.id == r.id) (named r.id ds) _ a.0 b.0, Marked-cons d ds rs a.1 b.1)
  where
    join : (x y z : Bool) → ((x || false) && z) ≡ false → (y && z) ≡ false → ((x || y) && z) ≡ false
    join true y z a b = a
    join false y z a b = b

Marked-nil : (rs : List Row) → All (Marked []) rs
unfolding named
Marked-nil [] = tt
Marked-nil (r ∷ rs) = (refl, Marked-nil rs)

-- A run that ends, of which each row comes from the one before, and which marks some rows.
pub record Marks (ds : List Row) (s : State) (out : Option State) : Type 0 where
  pub result : State
  pub ends : out ≡ some result
  pub fails : Zip Fails s.0.rows result.0.rows
  pub marked : All (Marked ds) result.0.rows

each-cons :
    (f : Row → State → Option State) (d : Row) (ds : List Row) (s : State) {s' s'' : State}
    → f d s ≡ some s'
    → each f ds s' ≡ some s''
    → each f (d ∷ ds) s ≡ some s''
unfolding each
each-cons f d ds s h k = rw (each, h) k

-- What the recursion does for one dependent, it does for all of them.
pub each-Marks :
    (bound : ℕ) (f : Row → State → Option State) (ds : List Row)
    → All (λ d. (s : State) → All (InOrder bound) s.0.rows → Marks (d ∷ []) s (f d s)) ds
    → (s : State) → All (InOrder bound) s.0.rows
    → Marks ds s (each f ds s)
unfolding each
each-Marks bound f [] h s o = record {
  result = s;
  ends = refl;
  fails = Zip-refl Fails Fails-refl s.0.rows;
  marked = Marked-nil s.0.rows;
}
each-Marks bound f (d ∷ ds) h s o =
    let one = h.0 s o in
    let rest = each-Marks bound f ds h.1 one.result (Rows-InOrder bound _ _ one.fails o) in
    record {
      result = rest.result;
      ends = each-cons f d ds s one.ends rest.ends;
      fails = Zip-trans Fails Fails-trans _ _ _ one.fails rest.fails;
      marked = Marked-cons d ds _ (Rows-Marked (d ∷ []) _ _ rest.fails one.marked) rest.marked;
    }
