-- ===== src/SqlPattern.antt =====
-- `SqlPattern` of src/var_pattern.h and src/var_pattern.cpp: `explode` cuts an SQL pattern into
-- literal pieces and the places `#{name}` and `#[name]` that a statement fills in.
pub mod Render
mod Kinds
pub mod Scanning
pub mod Sound
pub mod Complete
pub mod Faults
mod Tests
use rellaf.Prelude.{
  ℕ, List, [], ◌∷◌, ◌++◌, Bool, true, false, Option, none, some, Bytes, is_empty, ltb, ◌==◌, ◌||◌,
  if◌then◌else◌,
}

-- The enumeration also has the states and errors that `UrlPattern` uses.
pub data PatternErr : Type 0 where
  ok ill_token ill_begin ill_end unmatch none_field unknown : PatternErr

pub data PatternState : Type 0 where
  init normal match_token fetch end_fetch : PatternState

pub data StubType : Type 0 where
  literal field list : StubType

pub record Stub : Type 0 where
  pub type : StubType
  pub value : Bytes

-- The three tables have 128 entries; a byte from 128 on reads outside of them, which is `none`.
unfoldable pub token_pairs : ℕ → Option ℕ
token_pairs c =
    if ltb c 128 then some (if c == b'[' then b']' else if c == b'{' then b'}' else 0) else none

unfoldable pub tokens : ℕ → Option Bool
tokens c =
    if ltb c 128
    then some (c == b'#' || (c == b'[' || (c == b']' || (c == b'{' || c == b'}'))))
    else none

unfoldable pub end_tokens : ℕ → Option Bool
end_tokens c = if ltb c 128 then some (c == b']' || c == b'}') else none

-- The variables of the loop: `type` is the type of the one `stub` that the loop reuses.
pub record Scan : Type 0 where
  pub state : PatternState
  pub section : Bytes
  pub type : StubType
  pub token : ℕ
  pub pieces : List Stub

abbrev pub start : Scan
start = record { state = init; section = []; type = literal; token = 0; pieces = [] }

-- One round: go on, return false with an error, or read outside of a table.
pub data Round : Type 0 where
  next : Scan → Round
  fail : PatternErr → Round
  fault : Round

-- `stub.set_value(section); pieces.emplace_back(stub); section.clear();`
abbrev pub emit : Scan → Scan
emit s = record s {
  pieces = s.pieces ++ record { type = s.type; value = s.section } ∷ [];
  section = [];
}

pub round_init : Scan → ℕ → Round
round_init s c = elim (tokens c) [
  | none ↦ fault
  | some true ↦
      if c == b'#'
      then next (record (if is_empty s.section then s else emit s) { state = match_token })
      else fail ill_token
  | some false ↦ next (record s { section = s.section ++ c ∷ [] })
]

pub round_match : Scan → ℕ → Round
round_match s c = elim (token_pairs c) [
  | none ↦ fault
  | some pair ↦
      if pair == 0
      then fail ill_begin
      else next (record s { token = c; state = fetch; type = if c == b'[' then list else field })
]

-- The end token `c` has to be the partner of the token that began the place.
pub close : Scan → ℕ → Round
close s c = elim (token_pairs s.token) [
  | none ↦ fault
  | some pair ↦
      if c == pair
      then (if is_empty s.section
          then fail none_field
          else next (record (emit s) { state = init; type = literal }))
      else fail unmatch
]

pub round_fetch : Scan → ℕ → Round
round_fetch s c = elim (tokens c) [
  | none ↦ fault
  | some true ↦ elim (end_tokens c) [
    | none ↦ fault
    | some true ↦ close s c
    | some false ↦ fail ill_end
  ]
  | some false ↦ next (record s { section = s.section ++ c ∷ [] })
]

pub round_at : PatternState → Scan → ℕ → Round
round_at init s c = round_init s c
round_at match_token s c = round_match s c
round_at fetch s c = round_fetch s c
round_at _ s c = next s

unfoldable pub round : Scan → ℕ → Round
unfolding round_at round_init round_match round_fetch close tokens token_pairs end_tokens
round s c = round_at s.state s c

-- The result with the two output parameters. `pieces` is not cleared on an error.
pub record Exploded : Type 0 where
  pub ret : Bool
  pub pieces : List Stub
  pub err : PatternErr

-- The `switch` behind the loop.
pub finish_at : PatternState → Scan → Exploded
finish_at init s = record {
  ret = true;
  pieces = (if is_empty s.section then s else emit s).pieces;
  err = ok;
}
finish_at match_token s = record { ret = false; pieces = s.pieces; err = ill_begin }
finish_at fetch s = record { ret = false; pieces = s.pieces; err = ill_end }
finish_at _ s = record { ret = false; pieces = s.pieces; err = unknown }

unfoldable pub finish : Scan → Exploded
unfolding finish_at
finish s = finish_at s.state s

unfoldable pub run : Scan → Bytes → Option Exploded
run s [] = some (finish s)
run s (c ∷ cs) = elim (round s c) [
  | next s' ↦ run s' cs
  | fail e ↦ some (record { ret = false; pieces = s.pieces; err = e })
  | fault ↦ none
]

unfoldable pub explode : Bytes → Option Exploded
unfolding run round finish
explode pattern = run start pattern
