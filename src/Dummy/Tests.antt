-- ===== src/Dummy/Tests.antt =====
-- What the producers of src/dummy.c and src/file.c make of a message of the dummy.
use schaufel.Common.{◌≡◌, refl, true, none, some, [], ◌∷◌, ◌++◌, codes}
use schaufel.File.{Line, aborts, returns, file_producer_produce}
use schaufel.Dummy.{dummy_string_src, dummy_consumer_consume, dummy_producer_produce, until_nul}

abbrev fresh : Line
fresh = record { payload = none; datalen = 0 }

abbrev consumed : Line
consumed = record fresh { payload = some dummy_string_src }

dummy_message : dummy_consumer_consume true fresh ≡ returns consumed
unfolding dummy_consumer_consume
dummy_message = refl

printed :
    dummy_producer_produce consumed ≡ returns (codes "dummy: {\"type\":\"dummy\"}" ++ (10 ∷ []))
unfolding dummy_producer_produce until_nul
printed = refl

-- Its length is 0, with which the producer of src/file.c aborts.
to_file : file_producer_produce true consumed [] ≡ aborts
unfolding file_producer_produce
to_file = refl
