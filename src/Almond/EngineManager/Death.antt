-- ===== src/Almond/EngineManager/Death.antt =====
-- What the death of a process does to the users that it ran.
use genie_cloud.Base.{
  ℕ, ◌<◌, ◌≡◌, ◌≢◌, refl, Bool, true, List, [], ◌∷◌, Option, none, some, arith, any_of, Bool-cases,
  inl, inr, sym, ◌∙◌, subst, ap,
}
use genie_cloud.Almond.EngineManager.{
  EngineProxy, Listener, forget_process, restart_process, die_of, Manager, is_die_of, unlisten,
  drop_engine, die, hear_exit, hear_exits, fire_exit,
}
use genie_cloud.Almond.EngineManager.Users.{process_of}

-- Each engine has a proxy that stands for its own user, and the `die` of a proxy with a process
-- listens to that process. References below the next one are in use.
pub record IsTied (m : Manager) : Type 0 where
  pub owned :
      (u r : ℕ)
      → m.engines u ≡ some r
      → (obj : EngineProxy) × (m.proxies r ≡ some obj) × (obj.user_id ≡ u) × (r < m.next_ref)
  pub listens :
      (u r p : ℕ) (obj : EngineProxy)
      → m.engines u ≡ some r
      → m.proxies r ≡ some obj
      → obj.process ≡ some p
      → (any_of (is_die_of r) (m.on_exit p) ≡ true) × (p < m.next_ref)

pub die-proxies : (m : Manager) (r : ℕ) (manual : Bool) → (die m r manual).proxies ≡ m.proxies
unfolding die unlisten drop_engine
die-proxies m r manual = ground arith

pub hear_exit-proxies :
    (m : Manager) (p : ℕ) (manual : Bool) (l : Listener)
    → (hear_exit m p manual l).proxies ≡ m.proxies
unfolding hear_exit
hear_exit-proxies m p manual (forget_process u) = ground arith
hear_exit-proxies m p manual restart_process = ground arith
hear_exit-proxies m p manual (die_of r) = die-proxies m r manual

-- No engine appears, and none changes, when a process dies.
pub die-engines :
    (m : Manager) (r : ℕ) (manual : Bool) (u q : ℕ)
    → (die m r manual).engines u ≡ some q
    → m.engines u ≡ some q
unfolding die unlisten drop_engine
die-engines m r manual u q h = ground arith

pub hear_exit-engines :
    (m : Manager) (p : ℕ) (manual : Bool) (l : Listener) (u q : ℕ)
    → (hear_exit m p manual l).engines u ≡ some q
    → m.engines u ≡ some q
unfolding hear_exit
hear_exit-engines m p manual (forget_process v) u q h = ground arith
hear_exit-engines m p manual restart_process u q h = ground arith
hear_exit-engines m p manual (die_of r) u q h = die-engines m r manual u q h

hear_exits-engines :
    (m : Manager) (p : ℕ) (manual : Bool) (ls : List Listener) (u q : ℕ)
    → (hear_exits m p manual ls).engines u ≡ some q
    → m.engines u ≡ some q
unfolding hear_exits
hear_exits-engines m p manual [] u q h = h
hear_exits-engines m p manual (l ∷ ls) u q h =
    hear_exit-engines m p manual l u q
      (hear_exits-engines (hear_exit m p manual l) p manual ls u q h)

hear_exits-proxies :
    (m : Manager) (p : ℕ) (manual : Bool) (ls : List Listener)
    → (hear_exits m p manual ls).proxies ≡ m.proxies
unfolding hear_exits
hear_exits-proxies m p manual [] = refl
hear_exits-proxies m p manual (l ∷ ls) =
    hear_exits-proxies (hear_exit m p manual l) p manual ls ∙ hear_exit-proxies m p manual l

-- `die` removes its own engine.
pub die-removes :
    (m : Manager) (r p : ℕ) (manual : Bool) (obj : EngineProxy)
    → m.proxies r ≡ some obj
    → obj.process ≡ some p
    → (die m r manual).engines obj.user_id ≢ some r
unfolding die unlisten drop_engine
die-removes m r p manual obj found at h = ground arith

is_die_of-true : (r : ℕ) (l : Listener) → is_die_of r l ≡ true → l ≡ die_of r
is_die_of-true r (die_of q) h = ground arith
is_die_of-true r (forget_process u) h = cc
is_die_of-true r restart_process h = cc

hear_exits-removes :
    (m : Manager) (p r q : ℕ) (manual : Bool) (obj : EngineProxy) (ls : List Listener)
    → any_of (is_die_of r) ls ≡ true
    → m.proxies r ≡ some obj
    → obj.process ≡ some q
    → (hear_exits m p manual ls).engines obj.user_id ≢ some r
unfolding hear_exits hear_exit
hear_exits-removes m p r q manual obj [] h found at e = cc
hear_exits-removes m p r q manual obj (l ∷ ls) h found at e =
    let m' = hear_exit m p manual l in
    elim (Bool-cases (is_die_of r l)) [
      | inl mine ↦
          let gone : hear_exit m p manual l ≡ die m r manual =
            ap (hear_exit m p manual) (is_die_of-true r l mine) in
          die-removes m r q manual obj found at (
            subst (λ n. n.engines obj.user_id ≡ some r) gone
              (hear_exits-engines m' p manual ls obj.user_id r e))
      | inr other ↦
          hear_exits-removes m' p r q manual obj ls (rw other at h)
            (ap (λ f. f r) (hear_exit-proxies m p manual l) ∙ found) at e
    ]

pub process_of-inv :
    (m : Manager) (u p : ℕ)
    → process_of m u ≡ some p
    → (r : ℕ) × (obj : EngineProxy) × (m.engines u ≡ some r)
      × (m.proxies r ≡ some obj)
      × (obj.process ≡ some p)
process_of-inv m u p h = ground arith

pub same_owner :
    {o : Option EngineProxy} (x y : EngineProxy) → o ≡ some x → o ≡ some y → x.user_id ≡ y.user_id
same_owner x y p q = ap owner_of (sym p ∙ q)
  where
    owner_of : Option EngineProxy → ℕ
    owner_of none = 0
    owner_of (some z) = z.user_id

-- Where engines, proxies and listeners are tied, no user's engine is on a process once the listeners
-- of its death have run.
pub fire_exit-process_of :
    (m : Manager) (p u : ℕ) (manual : Bool)
    → IsTied m
    → process_of (fire_exit m p manual) u ≢ some p
unfolding fire_exit
fire_exit-process_of m p u manual tied h =
    let (r, obj, e, f, g) = process_of-inv (fire_exit m p manual) u p h in
    let f' : m.proxies r ≡ some obj =
      ap (λ k. k r) (sym (hear_exits-proxies m p manual (m.on_exit p))) ∙ f in
    let e' = hear_exits-engines m p manual (m.on_exit p) u r e in
    let (hears, _) = tied.listens u r p obj e' f' g in
    let (obj', f'', own', _) = tied.owned u r e' in
    let own : obj.user_id ≡ u = same_owner obj obj' f' f'' ∙ own' in
    hear_exits-removes m p r p manual obj (m.on_exit p) hears f' g
      (subst (λ v. (hear_exits m p manual (m.on_exit p)).engines v ≡ some r) (sym own) e)
