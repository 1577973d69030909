-- ===== src/Util/Db/Tests.antt =====
-- util/db.ts: a transaction whose commit is refused, and the command of a query.
use genie_cloud.Base.{
  ◌≡◌, refl, Option, none, some, List, [], ◌∷◌, Text, codes, Result, ok, err, Bool, true, false,
}
use genie_cloud.Util.Db.{
  Answers, with_transaction, get_db_command, set_isolation, start_transaction, commit, rollback,
  count_transaction, count_rollback, connected, work, released, destroyed, queried,
}
use genie_cloud.Util.Db.Transactions.{
  counts, expected, is_ok, commits_with, with_transaction-counts,
}

abbrev deadlock : Answers Text
deadlock = record {
  connecting = none;
  isolating = none;
  starting = none;
  committing = some (codes "deadlock");
  rolling_back = none;
}

abbrev work_done : Result Text Text
work_done = ok (codes "done")

given_back_twice :
    (with_transaction deadlock work_done).0
    ≡ count_transaction
      ∷ connected
      ∷ queried set_isolation true
      ∷ queried start_transaction true
      ∷ work
      ∷ queried commit false
      ∷ count_rollback
      ∷ queried rollback true
      ∷ released
      ∷ destroyed
      ∷ []
unfolding with_transaction
given_back_twice = refl

unknown_command : get_db_command (codes "select id from users") ≡ codes "unknown"
unfolding get_db_command
unknown_command = refl

commented_command : get_db_command (codes " (*SELECT id from users") ≡ codes "select"
unfolding get_db_command genie_cloud.Base.to_lower
commented_command = refl

with_transaction-counts_example :
    (counts (with_transaction deadlock work_done).0 ≡ expected deadlock work_done)
    × (is_ok (with_transaction deadlock work_done).1 ≡ commits_with deadlock work_done)
with_transaction-counts_example = with_transaction-counts deadlock work_done
