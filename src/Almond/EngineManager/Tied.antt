-- ===== src/Almond/EngineManager/Tied.antt =====
-- About engines, proxies and listeners: over what a process does, the two parts of the start of a user's
-- engine, the start of the shared processes, and the first part of the start of the manager.
use genie_cloud.Base.{
  ℕ, zero, suc, ◌+◌, ◌<◌, ◌≡◌, ◌≢◌, refl, Bool, true, false, not, ◌&&◌, ◌||◌, List, [], ◌∷◌, ◌++◌,
  Option, none, some, arith, if◌then◌else◌, ◌==◌, any_of, filter_of, Bool-cases, inl, inr, sym, ◌∙◌,
  subst, ap, update, Text, Option-cases, get_elem?, length, ◌%◌,
}
use genie_cloud.Almond.EngineProcess.{
  ProcessId, user_process, shared_process, Effect, emit_exit, emit_removed, Step,
}
use genie_cloud.Almond.EngineManager.{
  User, EngineProxy, Listener, forget_process, restart_process, die_of, Manager, is_die_of,
  unlisten, drop_engine, die, hear_exit, hear_exits, fire_exit, hear_removed, fire_removed, deliver,
  on_process, put_at, new_manager,
}
use genie_cloud.Almond.EngineManager.Users.{
  begin_user, attach_user, find_process_for_user, create_process, is_none, start_shared_from,
  start_shared_processes, digits_of, with_proxy, begin_users, start_manager, and_also,
  get_n_processes,
}
use genie_cloud.Almond.EngineManager.Death.{
  IsTied, die-proxies, die-engines, die-removes, same_owner,
}

any_of-filter :
    (r q : ℕ) (ls : List Listener)
    → q ≢ r
    → any_of (is_die_of r) ls ≡ true
    → any_of (is_die_of r) (filter_of (λ l. not (is_die_of q l)) ls) ≡ true
any_of-filter r q [] h e = e
any_of-filter r q (die_of s ∷ ls) h e = ground (arith, any_of-filter r q ls h)
any_of-filter r q (forget_process u ∷ ls) h e = any_of-filter r q ls h e
any_of-filter r q (restart_process ∷ ls) h e = any_of-filter r q ls h e

any_of-snoc :
    (r : ℕ) (ls : List Listener) (l : Listener)
    → any_of (is_die_of r) (ls ++ l ∷ []) ≡ (any_of (is_die_of r) ls || is_die_of r l)
any_of-snoc r [] l = ground arith
any_of-snoc r (k ∷ ls) l = ground (arith, any_of-snoc r ls l)

die-listens :
    (m : Manager) (r q p : ℕ) (manual : Bool)
    → q ≢ r
    → any_of (is_die_of r) (m.on_exit p) ≡ true
    → any_of (is_die_of r) ((die m q manual).on_exit p) ≡ true
unfolding die unlisten drop_engine
die-listens m r q p manual h e = ground (arith, any_of-filter r q (m.on_exit p) h)

die-next_ref : (m : Manager) (r : ℕ) (manual : Bool) → (die m r manual).next_ref ≡ m.next_ref
unfolding die unlisten drop_engine
die-next_ref m r manual = ground arith

not_dead :
    (m : Manager) (r : ℕ) (manual : Bool)
    → IsTied m
    → (u q p : ℕ) (obj : EngineProxy) → (die m r manual).engines u ≡ some q
    → m.proxies q ≡ some obj
    → obj.process ≡ some p
    → r ≢ q
not_dead m r manual tied u q p obj e f g same =
    let (obj', f', own, _) = tied.owned u q (die-engines m r manual u q e) in
    let own' : u ≡ obj.user_id = sym (same_owner obj obj' f f' ∙ own) in
    let at : (die m r manual).engines obj.user_id ≡ some r =
      ap (die m r manual).engines (sym own') ∙ e ∙ ap some (sym same) in
    die-removes m r p manual obj (ap m.proxies same ∙ f) g at

die-IsTied : (m : Manager) (r : ℕ) (manual : Bool) → IsTied m → IsTied (die m r manual)
die-IsTied m r manual tied = record {
  owned = λ u q e.
      let (obj, f, own, fresh) = tied.owned u q (die-engines m r manual u q e) in
      (obj, ap (λ k. k q) (die-proxies m r manual) ∙ f, own, rw (die-next_ref m r manual) fresh);
  listens = λ u q p obj e f g.
      let f' : m.proxies q ≡ some obj = ap (λ k. k q) (sym (die-proxies m r manual)) ∙ f in
      let e' = die-engines m r manual u q e in
      let (hears, fresh) = tied.listens u q p obj e' f' g in
      (
        die-listens m q r p manual (not_dead m r manual tied u q p obj e f' g) hears,
        rw (die-next_ref m r manual) fresh,
      );
}

-- What leaves engines, proxies, listeners of `exit` and references alone keeps them tied.
IsTied-of_same :
    (m n : Manager)
    → n.engines ≡ m.engines
    → n.proxies ≡ m.proxies
    → n.on_exit ≡ m.on_exit
    → n.next_ref ≡ m.next_ref
    → IsTied m
    → IsTied n
IsTied-of_same m n a b c d tied = record {
  owned = λ u r e. rw (b, d) (tied.owned u r (ap (λ k. k u) (sym a) ∙ e));
  listens = λ u r p obj e f g.
      rw (c, d) (tied.listens u r p obj (ap (λ k. k u) (sym a) ∙ e) (ap (λ k. k r) (sym b) ∙ f) g);
}

hear_exit-IsTied :
    (m : Manager) (p : ℕ) (manual : Bool) (l : Listener)
    → IsTied m
    → IsTied (hear_exit m p manual l)
unfolding hear_exit
hear_exit-IsTied m p manual (forget_process u) tied =
    IsTied-of_same m (hear_exit m p manual (forget_process u)) (ground arith) (ground arith)
      (ground arith) (ground arith) tied
hear_exit-IsTied m p manual restart_process tied =
    IsTied-of_same m (hear_exit m p manual restart_process) (ground arith) (ground arith)
      (ground arith) (ground arith) tied
hear_exit-IsTied m p manual (die_of r) tied = die-IsTied m r manual tied

hear_exits-IsTied :
    (m : Manager) (p : ℕ) (manual : Bool) (ls : List Listener)
    → IsTied m
    → IsTied (hear_exits m p manual ls)
unfolding hear_exits
hear_exits-IsTied m p manual [] tied = tied
hear_exits-IsTied m p manual (l ∷ ls) tied =
    hear_exits-IsTied (hear_exit m p manual l) p manual ls (hear_exit-IsTied m p manual l tied)

fire_exit-IsTied : (m : Manager) (p : ℕ) (manual : Bool) → IsTied m → IsTied (fire_exit m p manual)
unfolding fire_exit
fire_exit-IsTied m p manual tied = hear_exits-IsTied m p manual (m.on_exit p) tied

if-IsTied : (b : Bool) (m n : Manager) → IsTied m → IsTied n → IsTied (if b then m else n)
if-IsTied true m n x y = x
if-IsTied false m n x y = y

hear_removed-IsTied : (rs : List ℕ) (m : Manager) (u : ℕ) → IsTied m → IsTied (hear_removed m u rs)
unfolding hear_removed
hear_removed-IsTied [] m u tied = tied
hear_removed-IsTied (r ∷ rs) m u tied =
    hear_removed-IsTied rs _ u (if-IsTied _ (die m r true) m (die-IsTied m r true tied) tied)

deliver-IsTied : (m : Manager) (p : ℕ) (es : List Effect) → IsTied m → IsTied (deliver m p es)
unfolding deliver fire_removed
deliver-IsTied m p [] tied = tied
deliver-IsTied m p (emit_exit manual ∷ es) tied =
    deliver-IsTied (fire_exit m p manual) p es (fire_exit-IsTied m p manual tied)
deliver-IsTied m p (emit_removed u ∷ es) tied =
    deliver-IsTied (fire_removed m p u) p es (hear_removed-IsTied (m.on_removed p) m u tied)
deliver-IsTied m p (_ ∷ es) tied = deliver-IsTied m p es tied

-- Where engines, proxies and listeners are tied, they are so after what a process does is delivered,
-- whatever the process becomes and whatever it emits.
pub on_process-IsTied : (m : Manager) (p : ℕ) (s : Step) → IsTied m → IsTied (on_process m p s)
unfolding on_process
on_process-IsTied m p (q, es) tied =
    deliver-IsTied (record m { procs = update m.procs p (some q) }) p es
      (IsTied-of_same m _ refl refl refl refl tied)

pub new_manager-IsTied : (shard : ℕ) → IsTied (new_manager shard)
unfolding new_manager
new_manager-IsTied shard = record {
  owned = λ u r e. absurd (no_value e);
  listens = λ u r p obj e. absurd (no_value e);
}
  where
    no_value : {r : ℕ} → none ≡ some r → ⊥
    no_value e = cc

-- A new process listens at a reference of its own.
create_process-IsTied :
    (d : Bool) (m : Manager) (id : ProcessId) (cloud : Option Text) (l : Listener)
    → IsTied m
    → IsTied (create_process d m id cloud l)
unfolding create_process
create_process-IsTied d m id cloud l tied = record {
  owned = λ u r e. let (obj, f, own, fresh) = tied.owned u r e in (obj, f, own, omega arith);
  listens = λ u r p obj e f g.
      let (hears, fresh) = tied.listens u r p obj e f g in
      (old_listeners m p l (λ ls. any_of (is_die_of r) ls ≡ true) fresh hears, omega arith);
}
  where
    old_listeners :
        (m : Manager) (p : ℕ) (l : Listener) (P : List Listener → Type 0)
        → p < m.next_ref
        → P (m.on_exit p)
        → P (put_at m.on_exit m.next_ref (l ∷ []) p)
    old_listeners m p l P fresh h = ground arith

with_proxy-IsTied : (m : Manager) (user : User) → IsTied m → IsTied (with_proxy m user)
unfolding with_proxy
with_proxy-IsTied m user tied = record {
  owned = λ u r e. elim (Bool-cases (u == user.id)) [
    | inl mine ↦ (
      record {
        user_id = user.id;
        cloud_id = user.cloud_id;
        process = none;
        thingpedia_client = false;
      },
      ground arith,
      ground arith,
      ground arith,
    )
    | inr other ↦
        let e' : m.engines u ≡ some r = ground arith in
        let (obj, f, own, fresh) = tied.owned u r e' in (obj, ground arith, own, omega arith)
  ];
  listens = λ u r p obj e f g. elim (Bool-cases (u == user.id)) [
    | inl mine ↦ absurd (ground arith)
    | inr other ↦
        let e' : m.engines u ≡ some r = ground arith in
        let (obj', f'', own, fresh) = tied.owned u r e' in
        let f' : m.proxies r ≡ some obj = ground arith in
        let (hears, used) = tied.listens u r p obj e' f' g in (hears, omega arith)
  ];
}

find_process_for_user-IsTied :
    (d : Bool) (m n : Manager) (user : User) (child : ℕ)
    → IsTied m
    → find_process_for_user d m user ≡ some (n, child)
    → IsTied n
unfolding find_process_for_user
find_process_for_user-IsTied d m n user child tied e =
    elim (Bool-cases (is_none user.developer_key && not user.force_separate_process)) [
      | inl common ↦ elim (Option-cases (get_elem? m.rrproc m.next_process)) [
        | inl missing ↦ absurd (ground arith)
        | inr (c, there) ↦
            let same : record m { next_process = (m.next_process + 1) % length m.rrproc } ≡ n =
              ground arith in
            subst IsTied same (IsTied-of_same m _ refl refl refl refl tied)
      ]
      | inr own ↦
          let same : create_process d m (user_process user.id) (some user.cloud_id)
                (forget_process user.id)
              ≡ n =
            ground arith in
          subst IsTied same (create_process-IsTied d m _ _ _ tied)
    ]

-- Where engines, proxies and listeners are tied, they are so after the start of a user's engine up
-- to its `await`, if that finds a process.
pub begin_user-IsTied :
    (d : Bool) (m n : Manager) (user : User) (child r : ℕ)
    → IsTied m
    → begin_user d m user ≡ some (n, child, r)
    → IsTied n
unfolding begin_user with_proxy
begin_user-IsTied d m n user child r tied e =
    elim (Option-cases (find_process_for_user d (with_proxy m user) user)) [
      | inl missing ↦ absurd (ground arith)
      | inr ((n', c), found) ↦
          let same : n' ≡ n = ground arith in
          subst IsTied same (
            find_process_for_user-IsTied d (with_proxy m user) n' user c
              (with_proxy-IsTied m user tied) found)
    ]

-- Where engines, proxies and listeners are tied, they are so after the end of the start of a user's
-- engine, if the proxy is one of that user and the process has been created.
pub attach_user-IsTied :
    (embedded : Bool) (m : Manager) (user : User) (child r : ℕ) (obj : EngineProxy)
    → IsTied m
    → m.proxies r ≡ some obj
    → obj.user_id ≡ user.id
    → child < m.next_ref
    → IsTied (attach_user embedded m user child r)
unfolding attach_user
attach_user-IsTied embedded m user child r obj tied f own fresh = record {
  owned = λ u q e.
      let (x, g, own', used) = tied.owned u q e in
      elim (Bool-cases (q == r)) [
        | inl mine ↦ (
          record {
            user_id = user.id;
            cloud_id = user.cloud_id;
            process = some child;
            thingpedia_client = embedded;
          },
          ground arith,
          ground arith,
          used,
        )
        | inr other ↦ (x, ground arith, own', used)
      ];
  listens = λ u q p x e g h.
      let snoc = any_of-snoc q (m.on_exit child) (die_of r) in
      elim (Bool-cases (q == r)) [
        | inl mine ↦ let at : p ≡ child = ground arith in (ground (arith, snoc), omega arith)
        | inr other ↦
            let g' : m.proxies q ≡ some x = ground arith in
            let (hears, used) = tied.listens u q p x e g' h in (ground (arith, snoc), used)
      ];
}

start_shared_from-IsTied :
    (print : ℕ → Text) (m : Manager) (i n : ℕ) → IsTied m → IsTied (start_shared_from print m i n)
unfolding start_shared_from
start_shared_from-IsTied print m i zero tied = tied
start_shared_from-IsTied print m i (suc n) tied =
    let m' =
      create_process false m (shared_process (digits_of print m.shard_id i)) none restart_process in
    start_shared_from-IsTied print (record m' { rrproc = m.rrproc ++ m.next_ref ∷ [] }) (suc i) n
      (IsTied-of_same m' _ refl refl refl refl (create_process-IsTied false m _ none _ tied))

-- Where engines, proxies and listeners are tied, they are so after the start of any number of shared
-- processes.
pub start_shared_processes-IsTied :
    (print : ℕ → Text) (m : Manager) (n : ℕ) → IsTied m → IsTied (start_shared_processes print m n)
unfolding start_shared_processes
start_shared_processes-IsTied print m n tied =
    start_shared_from-IsTied print (record m { rrproc = []; next_process = 0 }) 0 n
      (IsTied-of_same m _ refl refl refl refl tied)

begin_users-IsTied :
    (d : Bool) (m : Manager) (rows : List User) → IsTied m → IsTied (begin_users d m rows).0
unfolding begin_users
begin_users-IsTied d m [] tied = tied
begin_users-IsTied d m (user ∷ rows) tied =
    by_start (λ n k. begin_users-IsTied d n rows k) (begin_user d m user) refl
  where
    by_start :
        ((n : Manager) → IsTied n → IsTied (begin_users d n rows).0)
        → (o : Option (Manager × ℕ × ℕ)) → begin_user d m user ≡ o
        → let out : Manager × List (User × ℕ × ℕ) = elim o [
          | none ↦ begin_users d (with_proxy m user) rows
          | some (n, child, r) ↦ and_also user child r (begin_users d n rows)
        ] in
          IsTied out.0
    by_start later none e = later (with_proxy m user) (with_proxy-IsTied m user tied)
    by_start later (some (n, child, r)) e = later n (begin_user-IsTied d m n user child r tied e)

-- Where engines, proxies and listeners are tied, they are so after `start` has begun the engines of
-- its users.
pub start_manager-IsTied :
    (d : Bool) (print : ℕ → Text) (ncpus : ℕ) (rows : List User) (m : Manager)
    → IsTied m
    → IsTied (start_manager d print ncpus rows m).0
unfolding start_manager
start_manager-IsTied d print ncpus rows m tied =
    begin_users-IsTied d (start_shared_processes print m (get_n_processes ncpus)) rows
      (start_shared_processes-IsTied print m (get_n_processes ncpus) tied)
