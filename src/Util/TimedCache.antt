-- ===== src/Util/TimedCache.antt =====
-- util/timed_cache.ts: a map whose entries may time out, with a finalizer for a value that leaves.
-- Timers and finalizers have numbers; `pending` are the timers that were set and have neither fired
-- nor been cleared, and `finalized` lists the calls of finalizers, the last one first.
pub mod Laws
mod Tests
use genie_cloud.Base.{
  ℕ, suc, Bool, true, false, not, List, [], ◌∷◌, ◌++◌, Option, none, some, if◌then◌else◌, ◌==◌, map,
  filter_of, length,
}

pub record CacheNode : Type 0 where
  pub value : ℕ
  pub timeout : Option ℕ
  pub finalizer : Option ℕ

pub record TimedCache : Type 0 where
  pub store : List (ℕ × CacheNode)
  pub pending : List (ℕ × ℕ)
  pub next_timer : ℕ
  pub finalized : List (ℕ × ℕ)

unfoldable pub new : TimedCache
new = record { store = []; pending = []; next_timer = 0; finalized = [] }

-- `Map.get`, `Map.delete` and `Map.set`
unfoldable pub find : ℕ → List (ℕ × CacheNode) → Option CacheNode
find k [] = none
find k ((j, n) ∷ m) = if j == k then some n else find k m

unfoldable pub drop_key : ℕ → List (ℕ × CacheNode) → List (ℕ × CacheNode)
drop_key k [] = []
drop_key k ((j, n) ∷ m) = let rest = drop_key k m in if j == k then rest else (j, n) ∷ rest

unfoldable pub put : ℕ → CacheNode → List (ℕ × CacheNode) → List (ℕ × CacheNode)
put k v [] = (k, v) ∷ []
put k v ((j, n) ∷ m) = if j == k then (j, v) ∷ m else (j, n) ∷ put k v m

unfoldable pub size : TimedCache → ℕ
size c = length c.store

unfoldable pub keys : TimedCache → List ℕ
keys c = map (λ e. e.0) c.store

unfoldable pub values : TimedCache → List ℕ
values c = map (λ e. e.1.value) c.store

unfoldable pub entries : TimedCache → List (ℕ × ℕ)
entries c = map (λ e. (e.0, e.1.value)) c.store

unfoldable pub get : ℕ → TimedCache → Option ℕ
get k c = elim (find k c.store) [ none ↦ none | some n ↦ some n.value ]

unfoldable pub has : ℕ → TimedCache → Bool
has k c = elim (find k c.store) [ none ↦ false | some n ↦ true ]

-- `clearTimeout`, where there is a timeout.
unfoldable pub clear_timeout : Option ℕ → TimedCache → TimedCache
clear_timeout none c = c
clear_timeout (some t) c = record c { pending = filter_of (λ p. not (p.0 == t)) c.pending }

-- The call of a finalizer, where there is one.
unfoldable pub finalize : CacheNode → TimedCache → TimedCache
finalize n c = elim n.finalizer [
  | none ↦ c
  | some f ↦ record c { finalized = (f, n.value) ∷ c.finalized }
]

-- The loop of `clear`.
unfoldable pub release_all : List (ℕ × CacheNode) → TimedCache → TimedCache
unfolding clear_timeout finalize
release_all [] c = c
release_all ((k, n) ∷ rest) c = release_all rest (finalize n (clear_timeout n.timeout c))

unfoldable pub clear : TimedCache → TimedCache
unfolding release_all
clear c = let c' = release_all c.store c in record c' { store = [] }

unfoldable pub delete : ℕ → TimedCache → Bool × TimedCache
unfolding find drop_key clear_timeout finalize
delete k c = elim (find k c.store) [
  | none ↦ (false, c)
  | some n ↦
      let c' = finalize n (clear_timeout n.timeout c) in
      (true, record c' { store = drop_key k c'.store })
]

-- `setTimeout(() => this.delete(key), timeout)`, unless the timeout is `null`: its number.
unfoldable pub set_timeout : ℕ → Option ℕ → TimedCache → Option ℕ × TimedCache
set_timeout k none c = (none, c)
set_timeout k (some ms) c = (
  some c.next_timer,
  record c { pending = (c.next_timer, k) ∷ c.pending; next_timer = suc c.next_timer },
)

-- `set`. An entry that is there keeps its value, and gets the new finalizer and timeout.
unfoldable pub set : ℕ → ℕ → Option ℕ → Option ℕ → TimedCache → TimedCache
unfolding find put clear_timeout finalize set_timeout
set k v timeout finalizer c = elim (find k c.store) [
  | some existing ↦
      let c1 = if existing.value == v then c else finalize existing c in
      let (t, c2) = set_timeout k timeout (clear_timeout existing.timeout c1) in
      record c2 {
        store =
            put k (record { value = existing.value; timeout = t; finalizer = finalizer }) c2.store;
      }
  | none ↦
      let (t, c1) = set_timeout k timeout c in
      record c1 {
        store = put k (record { value = v; timeout = t; finalizer = finalizer }) c1.store;
      }
]

-- A pending timer fires.
unfoldable pub fire : ℕ → ℕ → TimedCache → TimedCache
unfolding delete
fire t k c = (delete k (record c { pending = filter_of (λ p. not (p.0 == t)) c.pending })).1
