-- ===== src/Almond/ManagerClient/Links.antt =====
-- almond/enginemanagerclient.ts: the entries of the cache, and what a change of a link leaves of them.
use genie_cloud.Base.{
  ℕ, suc, ◌≡◌, ◌≤◌, refl, sym, ap, ◌∙◌, subst, Bool, true, false, not, ◌&&◌, inl, inr, List, [],
  ◌∷◌, ◌++◌, Option, none, some, some-injective, if-elim, ◌==◌, ==_iff, NatMap, update, All,
  All-imp, Bool-cases, arith,
}
use genie_cloud.Almond.ManagerClient.{Role, direct, Link, Client, uncache, with_link, opened}

-- An engine that is cached: its connection was made for its user, its close handler has not taken it
-- out, and it is not closed unless the client was stopped.
pub record Fresh (links : NatMap Link) (stopped : Bool) (e : ℕ × ℕ) : Type 0 where
  pub link : Link
  pub found : links e.1 ≡ some link
  pub role : link.role ≡ direct e.0
  pub kept : link.deleted ≡ false
  pub live : (link.closed && not stopped) ≡ false

-- What may become of a link.
abbrev pub Carries : Bool → Link → Link → ℕ → Type 0
Carries stopped l l' user =
    l.role ≡ direct user
    → l.deleted ≡ false
    → (l.closed && not stopped) ≡ false
    → (l'.role ≡ direct user) × ((l'.deleted ≡ false) × ((l'.closed && not stopped) ≡ false))

pub Fresh-update :
    (links : NatMap Link) (stopped : Bool) (s : ℕ) (l l' : Link) (e : ℕ × ℕ)
    → links s ≡ some l
    → Carries stopped l l' e.0
    → Fresh links stopped e
    → Fresh (update links s (some l')) stopped e
Fresh-update links stopped s l l' e h k f = elim (Bool-cases (e.1 == s)) [
  | inl q ↦
      let same : f.link ≡ l =
        some-injective _ _ (sym f.found ∙ ap links ((==_iff e.1 s).0 q) ∙ h) in
      let out =
        k (subst (λ m. m.role ≡ direct e.0) same f.role)
          (subst (λ m. m.deleted ≡ false) same f.kept)
          (subst (λ m. (m.closed && not stopped) ≡ false) same f.live) in
      record { link = l'; found = rw q refl; role = out.0; kept = out.1.0; live = out.1.1 }
  | inr q ↦ record {
    link = f.link;
    found = rw q f.found;
    role = f.role;
    kept = f.kept;
    live = f.live;
  }
]

abbrev pub AllFresh : Client → Type 0
AllFresh c = All (Fresh c.links c.expect_close) c.cached_engines

pub record Sound (c : Client) : Type 0 where
  pub fresh : AllFresh c
  pub below : (s : ℕ) → c.next_socket ≤ s → c.links s ≡ none

none_some : {A : Type 0} {x : A} {o : Option A} {Goal : Type 0} → o ≡ none → o ≡ some x → Goal
none_some h k = absurd (cc)

pub below-update :
    (c : Client) (s : ℕ) (l l' : Link)
    → Sound c
    → c.links s ≡ some l
    → (t : ℕ) → c.next_socket ≤ t
    → update c.links s (some l') t ≡ none
below-update c s l l' h e t le = elim (Bool-cases (t == s)) [
  | inl q ↦ none_some (h.below t le) (ap c.links ((==_iff t s).0 q) ∙ e)
  | inr q ↦ rw q (h.below t le)
]

pub Sound-with_link :
    (c : Client) (s : ℕ) (l l' : Link)
    → Sound c
    → c.links s ≡ some l
    → ((user : ℕ) → Carries c.expect_close l l' user)
    → Sound (with_link s l' c)
Sound-with_link c s l l' h e k = record {
  fresh =
      All-imp _ _ (λ x. Fresh-update c.links c.expect_close s l l' x e (k x.0)) c.cached_engines
        h.fresh;
  below = below-update c s l l' h e;
}

-- A new connection, whose number no entry has.
pub Fresh-opened :
    (role : Role) (c : Client) (e : ℕ × ℕ)
    → Sound c
    → Fresh c.links c.expect_close e
    → Fresh (opened role c).links c.expect_close e
Fresh-opened role c e h f = elim (Bool-cases (e.1 == c.next_socket)) [
  | inl q ↦ none_some (h.below e.1 (omega (arith, (==_iff e.1 c.next_socket).0 q))) f.found
  | inr q ↦ record {
    link = f.link;
    found = rw q f.found;
    role = f.role;
    kept = f.kept;
    live = f.live;
  }
]

pub below-opened :
    (role : Role) (c : Client)
    → Sound c
    → (s : ℕ) → suc c.next_socket ≤ s
    → (opened role c).links s ≡ none
below-opened role c h s le = elim (Bool-cases (s == c.next_socket)) [
  | inl q ↦ absurd (omega (arith, le, (==_iff s c.next_socket).0 q))
  | inr q ↦ rw q (h.below s (omega (arith, le)))
]

pub Sound-opened : (role : Role) (c : Client) → Sound c → Sound (opened role c)
Sound-opened role c h = record {
  fresh = All-imp _ _ (λ e. Fresh-opened role c e h) c.cached_engines h.fresh;
  below = below-opened role c h;
}

pub All-snoc :
    (P : ℕ × ℕ → Type 0) (es : List (ℕ × ℕ)) (e : ℕ × ℕ) → All P es → P e → All P (es ++ e ∷ [])
All-snoc P [] e a p = (p, tt)
All-snoc P (x ∷ es) e a p = (a.0, All-snoc P es e a.1 p)

pub All-uncache :
    (P Q : ℕ × ℕ → Type 0) (user : ℕ)
    → ((e : ℕ × ℕ) → not (e.0 == user) ≡ true → P e → Q e)
    → (es : List (ℕ × ℕ)) → All P es
    → All Q (uncache user es)
All-uncache P Q user h [] a = tt
All-uncache P Q user h (e ∷ es) a =
    if-elim (All Q) (not (e.0 == user)) (λ q. (h e q a.0, All-uncache P Q user h es a.1))
      (λ q. All-uncache P Q user h es a.1)
