-- ===== src/Dummy.antt =====
-- src/dummy.c: a consumer that always gives the same text, and a producer that prints what it gets.
-- Messages are those of File.
mod Tests
use schaufel.Common.{Bool, true, false, Option, none, some, List, [], ◌∷◌, ◌++◌, ◌==◌, codes}
use schaufel.File.{Str, Line, Outcome, aborts, faults, returns}

-- `dummy_string_src`, with its NUL.
abbrev pub dummy_string_src : Str
dummy_string_src = codes "{\"type\":\"dummy\"}" ++ (0 ∷ [])

-- `dummy_consumer_consume`; the argument says whether there is memory, and without it the process
-- aborts. The length of the message is not set.
unfoldable pub dummy_consumer_consume : Bool → Line → Outcome Line
dummy_consumer_consume true msg = returns (record msg { payload = some dummy_string_src })
dummy_consumer_consume false msg = aborts

-- What "%s" prints: up to the NUL, and past the buffer without one.
unfoldable pub until_nul : Str → Outcome Str
until_nul [] = faults
until_nul (c ∷ cs) =
    let rest = until_nul cs in
    elim (c == 0) [
      | true ↦ returns []
      | false ↦ elim rest [ aborts ↦ aborts | faults ↦ faults | returns s ↦ returns (c ∷ s) ]
    ]

-- `dummy_producer_produce`: what it prints. printf has a text for NULL.
unfoldable pub dummy_producer_produce : Line → Outcome Str
dummy_producer_produce msg = elim msg.payload [
  | none ↦ returns (codes "dummy: (null)" ++ (10 ∷ []))
  | some buf ↦ elim (until_nul buf) [
    | aborts ↦ aborts
    | faults ↦ faults
    | returns s ↦ returns (codes "dummy: " ++ (s ++ (10 ∷ [])))
  ]
]

-- `dummy_validator`.
abbrev pub dummy_validator : {S : Type 0} → S → Bool
dummy_validator config = true
