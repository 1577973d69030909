-- ===== src/Util/JsonDatagramSocket.antt =====
-- util/json_datagram_socket.ts: JSON payloads over a stream. `JSON.parse` and `JSON.stringify` are
-- parameters; the stream that is written to is the text it has got.
pub mod Reading
mod Tests
use genie_cloud.Base.{ℕ, Bool, true, false, List, [], ◌∷◌, ◌++◌, Option, none, some, Text, split}

-- The end of a line.
abbrev pub newline : ℕ
newline = 10

pub record Socket (Msg : Type 0) : Type 0 where
  pub reader : Bool
  -- what was written, while there is a writer
  pub writer : Option Text
  pub partial_message : Text
  -- the `data` events, in order
  pub emitted : List Msg

module _ {Msg : Type 0} where
  unfoldable pub new : Socket Msg
  new = record { reader = true; writer = some []; partial_message = []; emitted = [] }

  unfoldable pub end : Socket Msg → Socket Msg
  end s = record s { writer = none }

  unfoldable pub destroy : Socket Msg → Socket Msg
  destroy s = record s { reader = false; writer = none }

module _ {Msg : Type 0} (json_parse : Text → Option Msg) where
  -- The messages of the complete lines, and what comes after the last of them.
  unfoldable pub read_line : Text → List Msg
  read_line [] = []
  read_line (c ∷ s) = elim (json_parse (c ∷ s)) [ none ↦ [] | some msg ↦ msg ∷ [] ]

  unfoldable pub read_lines : List Text → List Msg × Text
  read_lines [] = ([], [])
  read_lines (last ∷ []) = ([], last)
  read_lines (line ∷ l ∷ ls) = let rest = read_lines (l ∷ ls) in (read_line line ++ rest.0, rest.1)

  -- What is left is a message already, where it parses.
  unfoldable pub read_partial : Text → List Msg × Text
  read_partial [] = ([], [])
  read_partial (c ∷ s) = elim (json_parse (c ∷ s)) [
    | none ↦ ([], c ∷ s)
    | some msg ↦ (msg ∷ [], [])
  ]

  -- `_tryReadMessage`: the messages it emits, and the partial message it leaves.
  unfoldable pub try_read : Text → List Msg × Text
  try_read text =
      let lines = read_lines (split newline text) in
      let left = read_partial lines.1 in (lines.0 ++ left.0, left.1)

  unfoldable pub try_read_message : Socket Msg → Socket Msg
  try_read_message s =
      let read = try_read s.partial_message in
      record s { emitted = s.emitted ++ read.0; partial_message = read.1 }

  -- The handler of `data`.
  unfoldable pub on_data : Socket Msg → Text → Socket Msg
  on_data s chunk = elim s.reader [
    | false ↦ s
    | true ↦ try_read_message (record s { partial_message = s.partial_message ++ chunk })
  ]

  -- The chunks of a stream, one after the other.
  unfoldable pub on_chunks : Socket Msg → List Text → Socket Msg
  on_chunks s [] = s
  on_chunks s (c ∷ cs) = on_chunks (on_data s c) cs

module _ {Msg : Type 0} (json_stringify : Msg → Text) where
  unfoldable pub write : Socket Msg → Msg → Socket Msg
  write s msg = elim s.writer [
    | none ↦ s
    | some sent ↦ record s { writer = some (sent ++ json_stringify msg ++ newline ∷ []) }
  ]

  unfoldable pub write_all : Socket Msg → List Msg → Socket Msg
  write_all s [] = s
  write_all s (m ∷ ms) = write_all (write s m) ms
