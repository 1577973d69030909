-- ===== src/Util/Tokenize.antt =====
-- util/tokenize.ts: the placeholders of an utterance, and the names made readable. Characters are
-- read as ASCII.
mod Tests
use genie_cloud.Base.{
  ℕ, zero, suc, ◌+◌, ◌-◌, Bool, true, false, not, ◌&&◌, ◌||◌, List, [], ◌∷◌, ◌++◌, Option, none,
  some, Text, codes, join, if◌then◌else◌, ◌==◌, leb, map, any_of, all_of, filter_of, to_lower,
  length, reverse_of, cons_part,
}

-- `[a-zA-Z0-9_]`, `[a-zA-Z0-9_-]` and `[A-Z]`
abbrev pub is_upper : ℕ → Bool
is_upper c = leb b'A' c && leb c b'Z'

abbrev pub is_word : ℕ → Bool
is_word c = leb b'a' c && leb c b'z' || is_upper c || leb b'0' c && leb c b'9' || c == b'_'

abbrev pub is_option_char : ℕ → Bool
is_option_char c = is_word c || c == b'-'

abbrev pub take_while : (ℕ → Bool) → Text → Text
take_while p [] = []
take_while p (c ∷ s) = let rest = take_while p s in if p c then c ∷ rest else []

abbrev pub drop_while : (ℕ → Bool) → Text → Text
drop_while p [] = []
drop_while p (c ∷ s) = let rest = drop_while p s in if p c then rest else c ∷ s

-- What `splitParams` gives: text, or a match with its parameter and option.
pub data Chunk : Type 0 where
  literal : Text → Chunk
  dollar : Chunk
  placeholder : Text → Option Text → Chunk

-- After `${`, the name and what comes next; the chunk and the length of the match.
unfoldable pub match_close : Text → Option Text → ℕ → Text → Option (Chunk × ℕ)
match_close name opt len [] = none
match_close name opt len (c ∷ s) = if c == b'}' then some (placeholder name opt, len + 1) else none

unfoldable pub match_option : Text → ℕ → Text → Option (Chunk × ℕ)
unfolding match_close
match_option name len [] = none
match_option name len (c ∷ s) =
    if c == b':'
    then elim (take_while is_option_char s) [
      | [] ↦ none
      | o ∷ os ↦
          match_close name (some (o ∷ os)) (len + 1 + length (o ∷ os)) (drop_while is_option_char s)
    ]
    else match_close name none len (c ∷ s)

unfoldable pub match_braced : Text → Option (Chunk × ℕ)
match_braced s = elim (take_while is_word s) [
  | [] ↦ none
  | w ∷ ws ↦ match_option (w ∷ ws) (2 + length (w ∷ ws)) (drop_while is_word s)
]

-- `PARAM_REGEX`, after its `$`.
unfoldable pub match_param : Text → Option (Chunk × ℕ)
match_param [] = none
match_param (c ∷ s) = if c == b'$' then some (dollar, 2) else elim (take_while is_word (c ∷ s)) [
  | [] ↦ (if c == b'{' then match_braced s else none)
  | w ∷ ws ↦ some (placeholder (w ∷ ws) none, 1 + length (w ∷ ws))
]

abbrev pub cons_char : ℕ → List Chunk → List Chunk
cons_char c (literal s ∷ cs) = literal (c ∷ s) ∷ cs
cons_char c cs = literal (c ∷ []) ∷ cs

-- `splitParams`, with the characters of the last match that are still to skip.
unfoldable pub split_from : ℕ → Text → List Chunk
unfolding match_param
split_from skip [] = []
split_from (suc skip) (c ∷ s) = split_from skip s
split_from zero (c ∷ s) = elim (if c == b'$' then match_param s else none) [
  | none ↦ cons_char c (split_from zero s)
  | some (chunk, len) ↦ chunk ∷ split_from (len - 1) s
]

unfoldable pub split_params : Text → List Chunk
split_params utterance = split_from 0 utterance

-- A token with a character that is special in a regular expression is dropped.
abbrev pub unsafe_chars : Text
unsafe_chars = codes "?*.()+\\"

unfoldable pub is_safe : Text → Bool
is_safe token = all_of (λ u. not (any_of (λ c. c == u) token)) unsafe_chars

unfoldable pub strip_unsafe_tokens : List Text → List Text
strip_unsafe_tokens tokens = filter_of is_safe tokens

unfoldable pub rejoin : List Text → Text
rejoin tokens = join (codes " ") tokens

-- `replace(/([^A-Z])([A-Z])/g, '$1 $2')`: the matches are two characters long and do not overlap.
unfoldable pub split_camel : Text → Text
split_camel [] = []
split_camel (a ∷ []) = a ∷ []
split_camel (a ∷ b ∷ s) =
    let past = split_camel s in
    let next = split_camel (b ∷ s) in
    if not (is_upper a) && is_upper b then a ∷ b' ' ∷ b ∷ past else a ∷ next

abbrev pub replace_char : (ℕ → Bool) → ℕ → Text → Text
replace_char p to s = map (λ c. if p c then to else c) s

-- `name.replace(/^[vwgpd]_/, …)`
abbrev pub drop_prefix : Text → Text
drop_prefix (a ∷ b ∷ s) = if any_of (λ c. c == a) (codes "vwgpd") && b == b'_' then s else a ∷ b ∷ s
drop_prefix s = s

unfoldable pub clean : Text → Text
unfolding split_camel
clean name = map to_lower (split_camel (replace_char (λ c. c == b'_') b' ' (drop_prefix name)))

abbrev pub is_space : ℕ → Bool
is_space c = leb 9 c && leb c 13 || c == b' '

abbrev pub trim : Text → Text
trim s = reverse_of (drop_while is_space (reverse_of (drop_while is_space s)))

-- `tokenize`: cut at spaces, which are dropped, and at punctuation, which is kept.
unfoldable pub split_words : Text → List Text
split_words [] = [] ∷ []
split_words (c ∷ s) =
    let rest = split_words s in
    if is_space c
    then [] ∷ rest
    else if any_of (λ u. u == c) (codes ",.\"'!?")
    then [] ∷ (c ∷ []) ∷ rest
    else cons_part c rest

unfoldable pub tokenize : Text → List Text
unfolding split_words
tokenize s = map (λ t. map to_lower t) (filter_of (λ t. not (all_of is_space t)) (split_words s))
