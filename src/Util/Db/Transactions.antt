-- ===== src/Util/Db/Transactions.antt =====
-- util/db.ts: what a transaction does on its connection.
use genie_cloud.Base.{
  ℕ, ◌+◌, ◌≡◌, refl, Bool, true, false, not, ◌&&◌, List, [], ◌∷◌, Option, none, some, Result, ok,
  err, if◌then◌else◌,
}
use genie_cloud.Util.Db.{
  Answers, Step, set_isolation, start_transaction, commit, rollback, count_transaction,
  count_rollback, connected, work, released, destroyed, queried, accepted, done, roll_back, abort,
  finish, settle, begin, connect_by, with_transaction,
}

abbrev pub is_ok : {E A : Type 0} → Result E A → Bool
is_ok (ok a) = true
is_ok (err e) = false

-- How often the statements that end a transaction were accepted, and how often the connection was
-- taken and given back.
pub record Counts : Type 0 where
  pub commits : ℕ
  pub rollbacks : ℕ
  pub taken : ℕ
  pub given_back : ℕ

abbrev pub no_counts : Counts
no_counts = record { commits = 0; rollbacks = 0; taken = 0; given_back = 0 }

abbrev pub count_step : Step → Counts → Counts
count_step (queried commit true) n = record n { commits = 1 + n.commits }
count_step (queried rollback true) n = record n { rollbacks = 1 + n.rollbacks }
count_step (queried commit false) n = n
count_step (queried rollback false) n = n
count_step (queried set_isolation b) n = n
count_step (queried start_transaction b) n = n
count_step count_transaction n = n
count_step count_rollback n = n
count_step work n = n
count_step connected n = record n { taken = 1 + n.taken }
count_step released n = record n { given_back = 1 + n.given_back }
count_step destroyed n = record n { given_back = 1 + n.given_back }

abbrev pub counts : List Step → Counts
counts [] = no_counts
counts (s ∷ ss) = count_step s (counts ss)

abbrev pub one_if : Bool → ℕ
one_if b = if b then 1 else 0

-- Whether a transaction begins, and whether it is committed.
abbrev pub begins : {E : Type 0} → Answers E → Bool
begins a = accepted a.connecting && accepted a.isolating && accepted a.starting

abbrev pub commits_with : {E A : Type 0} → Answers E → Result E A → Bool
commits_with a w = begins a && is_ok w && accepted a.committing

-- The counts of a transaction: a connection is given back once, and once more where a transaction has
-- begun and fails.
unfoldable pub expected : {E A : Type 0} → Answers E → Result E A → Counts
expected a w = record {
  commits = one_if (commits_with a w);
  rollbacks = one_if (begins a && not (commits_with a w) && accepted a.rolling_back);
  taken = one_if (accepted a.connecting);
  given_back = one_if (accepted a.connecting) + one_if (begins a && not (commits_with a w));
}

abbrev answers : {E : Type 0} → (c i s m r : Option E) → Answers E
answers c i s m r = record {
  connecting = c;
  isolating = i;
  starting = s;
  committing = m;
  rolling_back = r;
}

-- What holds of one transaction.
abbrev Counted : {E A : Type 0} → Answers E → Result E A → Type 0
Counted a w =
    (counts (with_transaction a w).0 ≡ expected a w)
    × (is_ok (with_transaction a w).1 ≡ commits_with a w)

by_answers : {E A : Type 0} (c i s m r : Option E) (w : Result E A) → Counted (answers c i s m r) w
unfolding with_transaction connect_by begin settle finish abort roll_back done expected
by_answers (some e) i s m r w = (refl, refl)
by_answers none (some e) s m r w = (refl, refl)
by_answers none none (some e) m r w = (refl, refl)
by_answers none none none m none (err e) = (refl, refl)
by_answers none none none m (some r) (err e) = (refl, refl)
by_answers none none none none r (ok a) = (refl, refl)
by_answers none none none (some e) none (ok a) = (refl, refl)
by_answers none none none (some e) (some r) (ok a) = (refl, refl)

-- A transaction returns exactly if it begins, its work returns and its commit is accepted, and then it
-- commits once; if it begins and fails otherwise, it rolls back where the database accepts that; and
-- its connection is given back once if it is committed or does not begin, but twice if it begins and
-- fails.
pub with_transaction-counts :
    {E A : Type 0} (a : Answers E) (w : Result E A)
    → (counts (with_transaction a w).0 ≡ expected a w)
      × (is_ok (with_transaction a w).1 ≡ commits_with a w)
with_transaction-counts a w =
    by_answers a.connecting a.isolating a.starting a.committing a.rolling_back w
