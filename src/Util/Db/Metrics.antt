-- ===== src/Util/Db/Metrics.antt =====
-- util/db.ts: which queries are monitored.
use genie_cloud.Base.{◌≡◌, refl, Bool, true, false, ◌||◌, [], Option, Text, starts_with}
use genie_cloud.Util.Db.{is_plain_query, query_metrics}

or_true : (b : Bool) → (b || true) ≡ true
or_true true = refl
or_true false = refl

-- Every query counts as a plain one, by the last alternative of the expression, which is empty.
is_plain_query-any : (query : Text) → is_plain_query query ≡ true
unfolding is_plain_query starts_with
is_plain_query-any query = or_true _

-- No metrics are recorded of any query, also where they are enabled.
pub query_metrics-none :
    {E : Type 0} (enabled : Bool) (query : Text) (answer : Option E)
    → query_metrics enabled query answer ≡ []
unfolding query_metrics
query_metrics-none true query answer = rw (is_plain_query-any query) refl
query_metrics-none false query answer = refl
