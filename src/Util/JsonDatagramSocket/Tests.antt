-- ===== src/Util/JsonDatagramSocket/Tests.antt =====
-- util/json_datagram_socket.ts: a stream of two messages that came in five chunks.
use genie_cloud.Base.{
  ◌≡◌, ◌≢◌, refl, Bool, true, false, List, [], ◌∷◌, ◌++◌, Option, none, some, Text, codes,
  if◌then◌else◌, text_eq, split, arith,
}
use genie_cloud.Util.JsonDatagramSocket.{
  new, write_all, write, on_chunks, on_data, try_read_message, try_read, read_line, read_lines,
  read_partial,
}
use genie_cloud.Util.JsonDatagramSocket.Reading.{Json, OneLine, on_chunks-write_all}

-- Two messages: an empty object and an empty array.
abbrev shown : Bool → Text
shown true = codes "{}"
shown false = codes "[]"

abbrev parsed : Text → Option Bool
parsed (a ∷ b ∷ []) =
    if text_eq (a ∷ b ∷ []) (codes "{}")
    then some true
    else if text_eq (a ∷ b ∷ []) (codes "[]")
    then some false
    else none
parsed _ = none

parsed-cut : (m : Bool) (p q : Text) → shown m ≡ p ++ q → p ≢ [] → q ≢ [] → parsed p ≡ none
parsed-cut m [] q e np nq = absurd (np refl)
parsed-cut m (a ∷ []) q e np nq = refl
parsed-cut true (a ∷ b ∷ []) [] e np nq = absurd (nq refl)
parsed-cut true (a ∷ b ∷ []) (c ∷ q) e np nq = cc
parsed-cut false (a ∷ b ∷ []) [] e np nq = absurd (nq refl)
parsed-cut false (a ∷ b ∷ []) (c ∷ q) e np nq = cc
parsed-cut m (a ∷ b ∷ c ∷ p) q e np nq = refl

parsed-shown : (m : Bool) → parsed (shown m) ≡ some m
unfolding text_eq
parsed-shown true = refl
parsed-shown false = refl

shown-OneLine : (m : Bool) → OneLine (shown m)
shown-OneLine true = ((λ e. omega (arith, e)), ((λ e. omega (arith, e)), tt))
shown-OneLine false = ((λ e. omega (arith, e)), ((λ e. omega (arith, e)), tt))

shown-not_empty : (m : Bool) → shown m ≢ []
shown-not_empty true e = cc
shown-not_empty false e = cc

shown-Json : Json parsed shown
shown-Json = record {
  one_line = shown-OneLine;
  not_empty = shown-not_empty;
  parses = parsed-shown;
  cut = parsed-cut;
}

abbrev chunks : List Text
chunks = codes "{" ∷ codes "}" ∷ codes "\n[" ∷ [] ∷ codes "]\n" ∷ []

sent : (write_all shown new (true ∷ false ∷ [])).writer ≡ some (codes "{}\n[]\n")
unfolding write_all write new
sent = refl

-- The first message is emitted before its line end is there.
emitted_early : (on_chunks parsed new (codes "{" ∷ codes "}" ∷ [])).emitted ≡ true ∷ []
unfolding on_chunks on_data try_read_message try_read read_lines read_line read_partial split new
    text_eq
emitted_early = refl

on_chunks-write_all_example :
    ((on_chunks parsed new chunks).emitted ≡ true ∷ false ∷ [])
    × ((on_chunks parsed new chunks).partial_message ≡ [])
on_chunks-write_all_example =
    on_chunks-write_all parsed shown shown-Json (true ∷ false ∷ []) chunks sent
