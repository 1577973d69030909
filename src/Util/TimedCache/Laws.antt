-- ===== src/Util/TimedCache/Laws.antt =====
-- About what the cache holds after its operations.
use genie_cloud.Base.{
  ℕ, ◌≡◌, refl, Bool, true, false, List, [], ◌∷◌, Option, none, some, if◌then◌else◌, ◌==◌, arith,
  inl, inr, ◌∙◌, ap, Option-cases,
}
use genie_cloud.Util.TimedCache.{
  TimedCache, CacheNode, find, drop_key, put, get, has, clear_timeout, finalize, delete,
  set_timeout, set, clear, release_all,
}

find-put :
    (k j : ℕ) (n : CacheNode) (m : List (ℕ × CacheNode))
    → find j (put k n m) ≡ (if k == j then some n else find j m)
unfolding find put
find-put k j n [] = refl
find-put k j n ((i, o) ∷ m) = ground (arith, find-put k j n m)

find-drop_key :
    (k j : ℕ) (m : List (ℕ × CacheNode))
    → find j (drop_key k m) ≡ (if k == j then none else find j m)
unfolding find drop_key
find-drop_key k j [] = ground arith
find-drop_key k j ((i, o) ∷ m) = ground (arith, find-drop_key k j m)

clear_timeout-store : (t : Option ℕ) (c : TimedCache) → (clear_timeout t c).store ≡ c.store
unfolding clear_timeout
clear_timeout-store none c = refl
clear_timeout-store (some t) c = refl

finalize-store : (n : CacheNode) (c : TimedCache) → (finalize n c).store ≡ c.store
unfolding finalize
finalize-store n c = ground arith

set_timeout-store : (k : ℕ) (t : Option ℕ) (c : TimedCache) → (set_timeout k t c).1.store ≡ c.store
unfolding set_timeout
set_timeout-store k none c = refl
set_timeout-store k (some ms) c = refl

if-store :
    (b : Bool) (n : CacheNode) (c : TimedCache) → (if b then c else finalize n c).store ≡ c.store
if-store true n c = refl
if-store false n c = finalize-store n c

-- Deleting takes out the key and leaves every other; the result says whether it was there.
pub get-delete :
    (k j : ℕ) (c : TimedCache)
    → (get j (delete k c).1 ≡ (if k == j then none else get j c)) × ((delete k c).0 ≡ has k c)
unfolding get has delete
get-delete k j c = elim (Option-cases (find k c.store)) [
  | inl e ↦ ground arith
  | inr (n, e) ↦
      let same = finalize-store n (clear_timeout n.timeout c) ∙ clear_timeout-store n.timeout c in
      let d = find-drop_key k j (finalize n (clear_timeout n.timeout c)).store in
      ground (arith, same, d, ap (find j) same)
]

-- A new key gets the value, a key that is there keeps its old one, and other keys are left alone.
pub get-set :
    (k j v : ℕ) (timeout finalizer : Option ℕ) (c : TimedCache)
    → get j (set k v timeout finalizer c)
      ≡ (if k == j then some (elim (get k c) [ none ↦ v | some old ↦ old ]) else get j c)
unfolding get set
get-set k j v timeout finalizer c = elim (Option-cases (find k c.store)) [
  | inl e ↦
      let t = set_timeout k timeout c in
      let n : CacheNode = record { value = v; timeout = t.0; finalizer = finalizer } in
      let p = find-put k j n t.1.store in
      let s = set_timeout-store k timeout c in ground (arith, s, p, ap (find j) s)
  | inr (old, e) ↦
      let c1 = if old.value == v then c else finalize old c in
      let kept : c1.store ≡ c.store = if-store (old.value == v) old c in
      let t = set_timeout k timeout (clear_timeout old.timeout c1) in
      let s =
        set_timeout-store k timeout (clear_timeout old.timeout c1)
        ∙ clear_timeout-store old.timeout c1
        ∙ kept in
      let n : CacheNode = record { value = old.value; timeout = t.0; finalizer = finalizer } in
      let p = find-put k j n t.1.store in ground (arith, s, p, ap (find j) s)
]

release_all-store :
    (es : List (ℕ × CacheNode)) (c : TimedCache) → (release_all es c).store ≡ c.store
unfolding release_all
release_all-store [] c = refl
release_all-store ((k, n) ∷ es) c =
    release_all-store es (finalize n (clear_timeout n.timeout c))
    ∙ finalize-store n (clear_timeout n.timeout c)
    ∙ clear_timeout-store n.timeout c

-- The finalizers that entries call, the last one first.
abbrev pub calls : List (ℕ × CacheNode) → List (ℕ × ℕ) → List (ℕ × ℕ)
calls [] done = done
calls ((k, n) ∷ es) done =
    calls es (elim n.finalizer [ none ↦ done | some f ↦ (f, n.value) ∷ done ])

clear_timeout-finalized :
    (t : Option ℕ) (c : TimedCache) → (clear_timeout t c).finalized ≡ c.finalized
unfolding clear_timeout
clear_timeout-finalized none c = refl
clear_timeout-finalized (some t) c = refl

finalize-finalized :
    (n : CacheNode) (c : TimedCache)
    → (finalize n c).finalized
      ≡ (elim n.finalizer [ none ↦ c.finalized | some f ↦ (f, n.value) ∷ c.finalized ])
unfolding finalize
finalize-finalized n c = ground arith

release_all-finalized :
    (es : List (ℕ × CacheNode)) (c : TimedCache)
    → (release_all es c).finalized ≡ calls es c.finalized
unfolding release_all
release_all-finalized [] c = refl
release_all-finalized ((k, n) ∷ es) c =
    release_all-finalized es (finalize n (clear_timeout n.timeout c))
    ∙ ap (calls es) (
        finalize-finalized n (clear_timeout n.timeout c)
        ∙ ap (λ d. elim n.finalizer [ none ↦ d | some f ↦ (f, n.value) ∷ d ])
            (clear_timeout-finalized n.timeout c))

-- Clearing calls the finalizer of every entry with its value, once and in order, and leaves no key.
pub clear_lem :
    (k : ℕ) (c : TimedCache)
    → ((clear c).finalized ≡ calls c.store c.finalized) × (get k (clear c) ≡ none)
unfolding clear get find
clear_lem k c = (release_all-finalized c.store c, refl)
