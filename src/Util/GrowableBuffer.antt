-- ===== src/Util/GrowableBuffer.antt =====
-- util/growable_buffer.ts: a byte buffer that grows by whole chunks. A method runs on the state and
-- leaves a state also where it throws. A byte is a number below 256.
pub mod Layout
pub mod Invariant
pub mod Locating
pub mod Poking
pub mod Contents
pub mod Wide
pub mod Wider
mod Tests
use mathlib.Core.List.{flatten}
use genie_cloud.Base.{
  ℕ, zero, suc, ◌+◌, ◌-◌, ◌*◌, ◌/◌, ◌%◌, ◌^◌, max, Bool, true, false, ◌&&◌, List, [], ◌∷◌, ◌++◌,
  Option, none, some, Result, ok, err, leb, ltb, ◌==◌, if◌then◌else◌, get_elem?, length, set, take,
  drop, replicate,
}
use genie_cloud.Util.BinarySearch.{binary_search}

pub data BufferError : Type 0 where
  assertion_failed : BufferError
  out_of_range : BufferError
  type_error : BufferError

-- `_buffers` and `_offsets` are parallel arrays.
pub record GrowableBuffer : Type 0 where
  pub size : ℕ
  pub capacity : ℕ
  pub buffers : List (List ℕ)
  pub offsets : List ℕ

unfoldable pub new : GrowableBuffer
new = record { size = 0; capacity = 0; buffers = []; offsets = [] }

-- A method: its result or the exception, and the state that it leaves.
abbrev pub Method : Type 0 → Type 0
Method A = GrowableBuffer → Result BufferError A × GrowableBuffer

infixl 5 ◌>>=◌ ◌>>◌
abbrev pub ◌>>=◌ : {A B : Type 0} → Method A → (A → Method B) → Method B
◌>>=◌ m f s = let (r, s') = m s in elim r [ ok a ↦ f a s' | err e ↦ (err e, s') ]

abbrev pub ◌>>◌ : {B : Type 0} → Method (Unit {0}) → Method B → Method B
m >> k = m >>= λ _. k

abbrev pub return : {A : Type 0} → A → Method A
return a s = (ok a, s)

abbrev pub throw : {A : Type 0} → BufferError → Method A
throw e s = (err e, s)

abbrev pub assert : Bool → Method (Unit {0})
assert b s = if b then (ok tt, s) else (err assertion_failed, s)

abbrev pub min_chunk : ℕ
min_chunk = 4096

-- `length`
pub buffer_length : GrowableBuffer → ℕ
buffer_length s = s.size

-- `Buffer.concat(list, size)`: cut to the size, or filled with zeros up to it.
pub to_buffer : GrowableBuffer → List ℕ
to_buffer s = let all = flatten s.buffers in take s.size (all ++ replicate (s.size - length all) 0)

pub ensure_size : ℕ → Method (Unit {0})
ensure_size requested s =
    if leb requested s.size
    then (ok tt, s)
    else if leb requested s.capacity
    then assert (leb requested s.capacity) (record s { size = requested })
    else (let chunk = max (requested - s.capacity) min_chunk in
        let s' : GrowableBuffer = record {
          size = requested;
          capacity = s.capacity + chunk;
          buffers = s.buffers ++ replicate chunk 0 ∷ [];
          offsets = s.offsets ++ s.capacity ∷ [];
        } in
        assert (leb requested (s.capacity + chunk) && length s'.buffers == length s'.offsets) s')

-- `offsets[i] > offset`, which is false where `offsets[i]` is undefined.
abbrev pub gt_at : List ℕ → ℕ → ℕ → Bool
gt_at offsets offset i = elim (get_elem? offsets i) [ none ↦ false | some x ↦ ltb offset x ]

-- `offset >= offsets[offsets.length - 1]`
abbrev pub ge_at : List ℕ → ℕ → ℕ → Bool
ge_at offsets offset i = elim (get_elem? offsets i) [ none ↦ false | some x ↦ leb x offset ]

-- `if (offsets[index] > offset) index--`; `none` is -1, and an undefined index compares false.
abbrev pub step_back : List ℕ → ℕ → Option ℕ → Option ℕ
step_back offsets offset none = none
step_back offsets offset (some zero) = if gt_at offsets offset 0 then none else some 0
step_back offsets offset (some (suc i)) =
    if gt_at offsets offset (suc i) then some i else some (suc i)

-- The index of the buffer that holds an offset.
pub find_buffer : ℕ → Method (Option ℕ)
find_buffer offset s =
    (do
      assert (ltb 0 (length s.offsets))
      if ge_at s.offsets offset (length s.offsets - 1)
          then return (some (length s.offsets - 1))
          else return (step_back s.offsets offset (binary_search s.offsets offset)))
      s

-- `buffers[index]` with `offset - offsets[index]`, after the check that the offset lies in that
-- buffer. A field of `undefined` is a type error, no comparison with `NaN` holds, and a position
-- before the buffer fails as `below`.
pub locate : BufferError → ℕ → Option ℕ → Method (ℕ × ℕ × List ℕ)
locate below offset none s = (err type_error, s)
locate below offset (some index) s = elim (get_elem? s.buffers index) [
  | none ↦ (err type_error, s)
  | some buffer ↦ elim (get_elem? s.offsets index) [
    | none ↦ (err assertion_failed, s)
    | some start ↦
        if leb (start + length buffer) offset
        then (err assertion_failed, s)
        else if ltb offset start
        then (err below, s)
        else (ok (index, offset - start, buffer), s)
  ]
]

-- Bytes written one after the other; those past the end are dropped.
pub set_all : List ℕ → ℕ → List ℕ → List ℕ
set_all b k [] = b
set_all b k (v ∷ vs) = set_all (set b k v) (suc k) vs

-- A write through a `Buffer` method that checks the value (`fits`) and the range.
pub poke : Bool → ℕ → ℕ → List ℕ → Method (Unit {0})
unfolding set_all
poke fits index k bytes s = elim (get_elem? s.buffers index) [
  | none ↦ (err type_error, s)
  | some b ↦
      if fits && leb (k + length bytes) (length b)
      then (ok tt, record s { buffers = set s.buffers index (set_all b k bytes) })
      else (err out_of_range, s)
]

-- `value >>> k`
abbrev pub shr : ℕ → ℕ → ℕ
shr value k = value % 2 ^ 32 / 2 ^ k

-- The low bytes of a value, the lowest first.
abbrev pub le_bytes : ℕ → ℕ → List ℕ
le_bytes zero value = []
le_bytes (suc n) value = (value % 256) ∷ le_bytes n (value / 256)

abbrev pub put_uint8 : ℕ → ℕ → ℕ → Method (Unit {0})
put_uint8 index value k = poke (ltb value 256) index k (le_bytes 1 value)

abbrev pub put_uint16 : ℕ → ℕ → ℕ → Method (Unit {0})
put_uint16 index value k = poke (ltb value 65536) index k (le_bytes 2 value)

abbrev pub put_uint32 : ℕ → ℕ → ℕ → Method (Unit {0})
put_uint32 index value k = poke (ltb value (2 ^ 32)) index k (le_bytes 4 value)

pub write_uint8 : ℕ → ℕ → Method (Unit {0})
write_uint8 value offset = do
  ensure_size (offset + 1)
  index ← find_buffer offset
  (i, k, buffer) ← locate out_of_range offset index
  put_uint8 i value k

pub write_uint16 : ℕ → ℕ → Method (Unit {0})
write_uint16 value offset = do
  assert (leb value 65536)
  ensure_size (offset + 2)
  index ← find_buffer offset
  (i, k, buffer) ← locate out_of_range offset index
  if ltb (length buffer) (k + 2)
      then (do put_uint8 i (value % 256) k; put_uint8 (i + 1) (shr value 8) 0)
      else put_uint16 i value k

-- The next buffer holds at least `n` bytes; a field of `undefined` is a type error.
pub assert_next : ℕ → ℕ → Method (Unit {0})
assert_next index n s = elim (get_elem? s.buffers index) [
  | none ↦ (err type_error, s)
  | some b ↦ assert (leb n (length b)) s
]

-- The `switch` on the number of bytes that fit the first buffer.
pub split_uint32 : ℕ → ℕ → ℕ → ℕ → Method (Unit {0})
split_uint32 first value i k =
    if first == 1
    then (do
      put_uint8 i (value % 256) k
      put_uint8 (i + 1) (shr value 8 % 256) 0
      put_uint16 (i + 1) (shr value 16) 1)
    else if first == 2
    then (do put_uint16 i (value % 65536) k; put_uint16 (i + 1) (shr value 16) 0)
    else if first == 3
    then (do
      put_uint8 i (value % 256) k
      put_uint16 i (shr value 8 % 65536) (k + 1)
      put_uint8 (i + 1) (shr value 24) 0)
    else return tt

pub write_uint32 : ℕ → ℕ → Method (Unit {0})
unfolding split_uint32
write_uint32 value offset = do
  assert (leb value (2 ^ 32))
  ensure_size (offset + 4)
  index ← find_buffer offset
  (i, k, buffer) ← locate out_of_range offset index
  if ltb (length buffer) (k + 4)
      then (do
        assert (leb (length buffer - k) 3)
        assert_next (i + 1) (4 - (length buffer - k))
        split_uint32 (length buffer - k) value i k)
      else put_uint32 i value k

pub write_buffer : List ℕ → ℕ → Method (Unit {0})
write_buffer from offset = do
  ensure_size (offset + length from)
  index ← find_buffer offset
  (i, k, buffer) ← locate assertion_failed offset index
  if ltb (length buffer) (k + length from)
      then (do
        let first = length buffer - k
        assert (ltb first (length from))
        assert_next (i + 1) (length from - first)
        poke true i k (take first from)
        poke true (i + 1) 0 (drop first from))
      else poke true i k from
