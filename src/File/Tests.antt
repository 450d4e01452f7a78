-- ===== src/File/Tests.antt =====
-- A file with a line and what follows it.
use schaufel.Common.{
  ◌≡◌, refl, Bool, true, none, some, List, [], ◌∷◌, ◌++◌, map, All, length, suc, codes,
  if◌then◌else◌, ◌==◌,
}
use schaufel.File.{
  Str, Settings, message_of, returns, aborts, file_validate, file_consumer_init, file_producer_init,
  file_producer_produce, file_consumer_consume, next_line,
}
use schaufel.File.Copy.{
  is_line, has_no_newline, with_tail, consume_all, produce_all, produce_all-consume_all,
}

abbrev held : Str → Str
held [] = []
held (c ∷ cs) = if c == 105 then 97 ∷ 10 ∷ 98 ∷ [] else 120 ∷ 10 ∷ []

abbrev named : Str → Settings
named name = record { threads = none; file = some name }

validated : file_validate (named (codes "i")) ≡ true
unfolding file_validate
validated = refl

validated_sink : file_validate (named (codes "o")) ≡ true
unfolding file_validate
validated_sink = refl

produce_all-consume_all_example :
    (from : Str) × (to : Str) × (ls : List Str) × (t : Str) × (some (codes "i") ≡ some from)
    × (some (codes "o") ≡ some to)
    × (file_consumer_init (λ n mode. some (held n)) (named (codes "i")) ≡ returns (held from))
    × (file_producer_init (λ n mode. some (held n)) (named (codes "o")) ≡ returns (held to))
    × All (λ l. is_line l ≡ true) ls
    × (has_no_newline t ≡ true)
    × (consume_all (suc (length (held from))) 0 (held from)
        ≡ some (map message_of (with_tail ls t)))
    × (produce_all (map message_of (with_tail ls t)) (held to) ≡ returns (held to ++ held from))
    × ((works : Bool) → file_producer_produce works (message_of []) (held to) ≡ aborts)
produce_all-consume_all_example =
    produce_all-consume_all held (named (codes "i")) (named (codes "o")) 0 validated validated_sink

copied :
    consume_all 4 0 (97 ∷ 10 ∷ 98 ∷ [])
    ≡ some (message_of (97 ∷ 10 ∷ []) ∷ message_of (98 ∷ []) ∷ [])
unfolding consume_all file_consumer_consume next_line
copied = refl
