-- ===== src/Almond/ManagerClient/Cached.antt =====
-- almond/enginemanagerclient.ts: the engines that are cached, over any run of the client.
use genie_cloud.Base.{
  ℕ, zero, suc, ◌≡◌, refl, sym, ap, ◌∙◌, subst, Bool, true, false, not, ◌&&◌, ◌||◌, List, [], ◌∷◌,
  Option, none, some, Text, if-elim, ◌==◌, All, arith,
}
use genie_cloud.Almond.ManagerClient.{
  Role, direct, control, Link, Client, new, Call, Effect, cached_socket, new_link, with_link,
  opened, engine_by, get_engine, connect_by, connect, start_from, start, stop, uncached_call,
  uncaches,
}
use genie_cloud.Almond.ManagerClient.{resolved, rejected}
use genie_cloud.Almond.ManagerClient.Sockets.{
  close_by, close_found, on_close, settle, ready_by, ready_found, on_ready, fail_by, fail_found,
  on_error, step, run, Event, get_of, start_called, stop_called, called, closed_socket, answered,
  failed, reconnect,
}
use genie_cloud.Almond.ManagerClient.Links.{
  Fresh, Carries, Fresh-update, Sound, Sound-with_link, Sound-opened, below-opened, below-update,
  All-snoc, All-uncache,
}

==_self : (n : ℕ) → (n == n) ≡ true
==_self n = ground arith

module _ (n_shards : ℕ) (authentication : Option Text) where
  engine_by-Sound :
      (o : Option ℕ) (user : ℕ) (c : Client)
      → Sound c
      → Sound (engine_by n_shards authentication o user c).1
  unfolding engine_by
  engine_by-Sound (some s) user c h = h
  engine_by-Sound none user c h = record {
    fresh =
        All-snoc (Fresh (opened (direct user) c).links c.expect_close) c.cached_engines
          (user, c.next_socket) (Sound-opened (direct user) c h).fresh
          (record {
            link = new_link (direct user);
            found = rw (==_self c.next_socket) refl;
            role = refl;
            kept = refl;
            live = refl;
          });
    below = below-opened (direct user) c h;
  }

  connect_by-Sound :
      (o : Option Text) (shard : ℕ) (c : Client)
      → Sound c
      → Sound (connect_by n_shards authentication o shard c).1
  unfolding connect_by
  connect_by-Sound (some rpc) shard c h = h
  connect_by-Sound none shard c h =
      let k = Sound-opened (control shard) c h in record { fresh = k.fresh; below = k.below }

  start_from-Sound :
      (n shard : ℕ) (c : Client) → Sound c → Sound (start_from n_shards authentication n shard c).1
  unfolding start_from connect
  start_from-Sound zero shard c h = h
  start_from-Sound (suc n) shard c h =
      start_from-Sound n (suc shard) _ (connect_by-Sound (c.rpc_controls shard) shard c h)

  uncached_call-Sound :
      (k : Call) (user : ℕ) (c : Client)
      → Sound c
      → Sound (uncached_call n_shards authentication k user c).1
  unfolding uncached_call
  uncached_call-Sound k user c h = record {
    fresh = All-uncache _ _ user (λ e q f. f) c.cached_engines h.fresh;
    below = h.below;
  }

-- A link of a control is of no entry.
control-Carries :
    (stopped : Bool) (l l' : Link) (shard : ℕ)
    → l.role ≡ control shard
    → (user : ℕ) → Carries stopped l l' user
control-Carries stopped l l' shard h user r k v = absurd (cc)

stopped_live : (a b : Bool) → (a || b) ≡ true → b ≡ false → not a ≡ false
stopped_live true b h k = refl
stopped_live false b h k = cc

user_of : Role → ℕ
user_of (direct user) = user
user_of (control shard) = shard

not_other : {Goal : Type 0} (m n : ℕ) → m ≡ n → not (m == n) ≡ true → Goal
not_other m n h k = absurd (ground arith)

close_by-Sound :
    (r : Role) (s : ℕ) (l : Link) (c : Client)
    → Sound c
    → c.links s ≡ some l
    → l.role ≡ r
    → Sound (close_by r s l c).1
unfolding close_by user_of
close_by-Sound (control shard) s l c h e q =
    let k =
      Sound-with_link c s l (record l { closed = true }) h e
        (control-Carries c.expect_close l (record l { closed = true }) shard q) in
    record { fresh = k.fresh; below = k.below }
close_by-Sound (direct user) s l c h e q =
    if-elim (λ (r : List Effect × Client). Sound r.1) (c.expect_close || l.deleted)
      {x = ([], with_link s (record l { closed = true }) c)}
      (λ g.
        Sound-with_link c s l (record l { closed = true }) h e
          (λ u r k v. (r, (k, stopped_live c.expect_close l.deleted g k))))
      (λ g. record {
        fresh =
            All-uncache _ _ user
              (λ x d f.
                Fresh-update c.links c.expect_close s l _ x e
                  (λ r k v. not_other x.0 user (ap user_of (sym r ∙ q)) d) f)
              c.cached_engines h.fresh;
        below = below-update c s l _ h e;
      })

on_close-Sound : (s : ℕ) (c : Client) → Sound c → Sound (on_close s c).1
unfolding on_close close_found
on_close-Sound s c h = by_link (c.links s) refl
  where
    by_link : (o : Option Link) → c.links s ≡ o → Sound (close_found o s c).1
    by_link none e = h
    by_link (some l) e = close_by-Sound l.role s l c h e refl

-- A change that leaves the role, the handler and the closing of a link.
same-Carries :
    (stopped : Bool) (l l' : Link)
    → l'.role ≡ l.role
    → l'.deleted ≡ l.deleted
    → l'.closed ≡ l.closed
    → (user : ℕ) → Carries stopped l l' user
same-Carries stopped l l' a b d user r k v =
    (a ∙ r, (b ∙ k, subst (λ x. (x && not stopped) ≡ false) (sym d) v))

on_ready-Sound : (s : ℕ) (rpc : Text) (c : Client) → Sound c → Sound (on_ready s rpc c)
unfolding on_ready ready_found ready_by
on_ready-Sound s rpc c h = by_link (c.links s) refl
  where
    by_role : (r : Role) (l : Link) → c.links s ≡ some l → Sound (ready_by r s l rpc c)
    by_role (direct user) l e = Sound-with_link c s l _ h e (
        same-Carries c.expect_close l
          (record l { waiting = false; reply = settle l.reply resolved }) refl refl refl)
    by_role (control shard) l e =
        if-elim Sound l.waiting
          (λ w.
            let k =
              Sound-with_link c s l _ h e
                (same-Carries c.expect_close l (record l { waiting = false }) refl refl refl) in
            record { fresh = k.fresh; below = k.below })
          (λ w. h)

    by_link : (o : Option Link) → c.links s ≡ o → Sound (ready_found o s rpc c)
    by_link none e = h
    by_link (some l) e = by_role l.role l e

on_error-Sound :
    (s : ℕ) (m : Bool) (message : Text) (c : Client) → Sound c → Sound (on_error s m message c)
unfolding on_error fail_found fail_by
on_error-Sound s m message c h = by_link (c.links s) refl
  where
    by_role : (r : Role) (l : Link) → c.links s ≡ some l → Sound (fail_by r s l m message c)
    by_role (control shard) l e = h
    by_role (direct user) l e =
        if-elim Sound (m && not l.waiting) (λ w. h)
          (λ w. Sound-with_link c s l _ h e (
            same-Carries c.expect_close l (record l { reply = settle l.reply (rejected message) })
              refl refl refl))

    by_link : (o : Option Link) → c.links s ≡ o → Sound (fail_found o s m message c)
    by_link none e = h
    by_link (some l) e = by_role l.role l e

module _ (n_shards : ℕ) (authentication : Option Text) where
  step-Sound : (e : Event) (c : Client) → Sound c → Sound (step n_shards authentication e c)
  unfolding step get_engine connect start stop
  step-Sound (get_of user) c h =
      engine_by-Sound n_shards authentication (cached_socket c.cached_engines user) user c h
  step-Sound start_called c h = start_from-Sound n_shards authentication n_shards 0 c h
  step-Sound stop_called c h = record { fresh = tt; below = h.below }
  step-Sound (called k user) c h =
      if-elim Sound (uncaches k) (λ e. uncached_call-Sound n_shards authentication k user c h)
        (λ e. h)
  step-Sound (closed_socket s) c h = on_close-Sound s c h
  step-Sound (answered s rpc) c h = on_ready-Sound s rpc c h
  step-Sound (failed s m message) c h = on_error-Sound s m message c h
  step-Sound (reconnect shard) c h =
      connect_by-Sound n_shards authentication (c.rpc_controls shard) shard c h

  run-Sound : (es : List Event) (c : Client) → Sound c → Sound (run n_shards authentication es c)
  unfolding run
  run-Sound [] c h = h
  run-Sound (e ∷ es) c h = run-Sound es (step n_shards authentication e c) (step-Sound e c h)

  -- Whatever happens to a new client, in any order, every engine that is cached stands on a connection
  -- that was made for its user, that no close handler has taken out, and that is not closed unless the
  -- client was stopped.
  pub run-Fresh :
      (es : List Event)
      → (let c = run n_shards authentication es new in
          All (Fresh c.links c.expect_close) c.cached_engines)
  unfolding new
  run-Fresh es = (run-Sound es new (record { fresh = tt; below = λ s le. refl })).fresh
