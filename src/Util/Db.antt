-- ===== src/Util/Db.antt =====
-- util/db.ts: queries, connections and transactions. Whether the database accepts a statement is an
-- argument; what happens on a connection is recorded in its order.
pub mod Transactions
pub mod Metrics
mod Tests
use genie_cloud.Base.{
  ℕ, zero, suc, ◌+◌, Bool, true, false, not, ◌&&◌, ◌||◌, List, [], ◌∷◌, ◌++◌, map, Option, none,
  some, Text, codes, text_eq, starts_with, to_lower, leb, ◌==◌, if◌then◌else◌, ltb, Result, ok, err,
}
use genie_cloud.Util.Tokenize.{is_space}

-- The statements that this file sends itself, and those of its callers.
pub data Statement : Type 0 where
  set_isolation start_transaction commit rollback : Statement

-- What happens: the counters, the pool, a statement with whether it was accepted, the work of the
-- caller, and the two ways in which a connection is given back.
pub data Step : Type 0 where
  count_transaction count_rollback connected work released destroyed : Step
  queried : Statement → Bool → Step

-- What the database answers: an error or none.
pub record Answers (E : Type 0) : Type 0 where
  pub connecting : Option E
  pub isolating : Option E
  pub starting : Option E
  pub committing : Option E
  pub rolling_back : Option E

abbrev pub accepted : {E : Type 0} → Option E → Bool
accepted none = true
accepted (some e) = false

-- `done`
unfoldable pub done : {E : Type 0} → Option E → List Step
done none = released ∷ []
done (some e) = destroyed ∷ []

-- `rollback`, which settles in both cases.
unfoldable pub roll_back : {E : Type 0} → Answers E → List Step
unfolding done
roll_back a = count_rollback ∷ queried rollback (accepted a.rolling_back) ∷ done a.rolling_back

module _ {E A : Type 0} where
  -- The inner `catch`, then the outer one.
  unfoldable pub abort : Answers E → E → List Step × Result E A
  unfolding roll_back done
  abort a e = (roll_back a ++ done (some e), err e)

  -- The end of the inner `try`.
  unfoldable pub finish : Answers E → Option E → A → List Step × Result E A
  unfolding abort done
  finish a none x = (queried commit true ∷ done {E = E} none, ok x)
  finish a (some e) x = (queried commit false ∷ (abort a e).0, err e)

  -- The inner `try`, after the caller's work.
  unfoldable pub settle : Answers E → Result E A → List Step × Result E A
  unfolding finish abort
  settle a (ok x) = finish a a.committing x
  settle a (err e) = abort a e

  abbrev pub after : List Step → List Step × Result E A → List Step × Result E A
  after steps r = (steps ++ r.0, r.1)

  -- The outer `try`, by the answers to its two statements.
  unfoldable pub begin : Answers E → Option E → Option E → Result E A → List Step × Result E A
  unfolding settle done
  begin a (some e) starting w = (queried set_isolation false ∷ done (some e), err e)
  begin a none (some e) w =
      (queried set_isolation true ∷ queried start_transaction false ∷ done (some e), err e)
  begin a none none w =
      after (queried set_isolation true ∷ queried start_transaction true ∷ work ∷ []) (settle a w)

  unfoldable pub connect_by : Answers E → Option E → Result E A → List Step × Result E A
  unfolding begin
  connect_by a (some e) w = ([], err e)
  connect_by a none w = after (connected ∷ []) (begin a a.isolating a.starting w)

  -- `withTransaction`, by what the work of the caller ends with.
  unfoldable pub with_transaction : Answers E → Result E A → List Step × Result E A
  unfolding connect_by
  with_transaction a w = after (count_transaction ∷ []) (connect_by a a.connecting w)

  -- `withClient`
  unfoldable pub with_client : Option E → Result E A → List Step × Result E A
  unfolding done
  with_client (some e) w = ([], err e)
  with_client none w = (connected ∷ work ∷ done {E = E} none, w)

pub data RowError : Type 0 where
  not_found no_id : RowError
  too_many_rows : ℕ → RowError

abbrev pub count_rows : {A : Type 0} → List A → ℕ
count_rows [] = 0
count_rows (r ∷ rs) = suc (count_rows rs)

-- `selectOne`, of the rows that `selectAll` gives.
unfoldable pub select_one : {A : Type 0} → List A → Result RowError A
select_one [] = err not_found
select_one (r ∷ []) = ok r
select_one (r ∷ s ∷ rs) = err (too_many_rows (count_rows (r ∷ s ∷ rs)))

-- `insertOne` and `insertIgnore`, of what the driver answers.
unfoldable pub insert_one : Option ℕ → Result RowError ℕ
insert_one none = err no_id
insert_one (some id) = ok id

unfoldable pub insert_ignore : ℕ → Bool
insert_ignore affected_rows = ltb 0 affected_rows

-- `getDBCommand`: `/^\s*\(\*([a-z]+)\s/i`
abbrev pub is_letter : ℕ → Bool
is_letter c = leb 97 c && leb c 122 || leb 65 c && leb c 90

abbrev pub skip_space : Text → Text
skip_space [] = []
skip_space (c ∷ s) = let rest = skip_space s in if is_space c then rest else c ∷ s

-- The letters that a text begins with, where white space follows them.
abbrev pub word_of : Text → Text → Option Text
word_of word [] = none
word_of word (c ∷ s) =
    let longer = word_of (word ++ to_lower c ∷ []) s in
    if is_letter c then longer else if is_space c then some word else none

abbrev pub command_of : Option Text → Text
command_of none = codes "unknown"
command_of (some []) = codes "unknown"
command_of (some (c ∷ s)) = c ∷ s

abbrev pub after_comment : Text → Option Text
after_comment (c ∷ d ∷ s) = let word = word_of [] s in if c == b'(' && d == b'*' then word else none
after_comment s = none

unfoldable pub get_db_command : Text → Text
unfolding to_lower
get_db_command query = command_of (after_comment (skip_space query))

abbrev pub lower : Text → Text
lower s = map to_lower s

-- `/^(commit$|rollback$|start transaction |set transaction |)/i`, with its last alternative.
unfoldable pub is_plain_query : Text → Bool
is_plain_query query =
    text_eq (lower query) (codes "commit")
    || text_eq (lower query) (codes "rollback")
    || starts_with (codes "start transaction ") (lower query)
    || starts_with (codes "set transaction ") (lower query)
    || starts_with [] (lower query)

-- The metrics of a query.
pub data Metric : Type 0 where
  total duration : Text → Text → Metric
  failure : Text → Text → Metric

unfoldable pub monitored_query : {E : Type 0} → Text → Option E → List Metric
unfolding get_db_command
monitored_query query none =
    total (get_db_command query) query ∷ duration (get_db_command query) query ∷ []
monitored_query query (some e) =
    total (get_db_command query) query
    ∷ duration (get_db_command query) query
    ∷ failure (get_db_command query) query
    ∷ []

-- `query`: the metrics that are recorded.
unfoldable pub query_metrics : {E : Type 0} → Bool → Text → Option E → List Metric
unfolding monitored_query is_plain_query
query_metrics enabled query answer =
    if enabled && not (is_plain_query query) then monitored_query query answer else []

-- `getPool` and `tearDown`: whether there is a pool, and whether one is made or ended.
unfoldable pub get_pool : Bool → Bool × Bool
get_pool is_made = (true, not is_made)

unfoldable pub tear_down : Bool → Bool × Bool
tear_down is_made = (false, is_made)
