-- ===== src/Kafka/Messages/Retry.antt =====
-- The retries of the producer of src/kafka.c.
use schaufel.Common.{ℕ, zero, suc, ◌≡◌, refl, none, some, List, [], ◌∷◌}
use schaufel.Kafka.Messages.{
  Answer, accepted, queue_full, refused, Sent, produces, waits, logs, polls, kafka_producer_produce,
}

abbrev pub full : ℕ → List Answer → List Answer
full zero answers = answers
full (suc n) answers = queue_full ∷ full n answers

abbrev pub retries : ℕ → List ℕ → List Sent → List Sent
retries zero buf es = es
retries (suc n) buf es = produces buf ∷ waits ∷ retries n buf es

retried :
    (buf : List ℕ) (n : ℕ) (answers : List Answer) (es : List Sent)
    → kafka_producer_produce buf answers ≡ some es
    → kafka_producer_produce buf (full n answers) ≡ some (retries n buf es)
unfolding kafka_producer_produce
retried buf zero answers es h = h
retried buf (suc n) answers es h = rw (retried buf n answers es h) refl

unreturned : (buf : List ℕ) (n : ℕ) → kafka_producer_produce buf (full n []) ≡ none
unfolding kafka_producer_produce
unreturned buf zero = refl
unreturned buf (suc n) = rw (unreturned buf n) refl

-- As long as the queue of the library is full, `kafka_producer_produce` offers the same bytes again
-- after each wait, and does not return. It returns after the first other answer, however often the
-- queue was full before: the message is then accepted once, or it is dropped and logged; and the
-- callbacks of the library are served.
pub kafka_producer_produce_lem :
    (buf : List ℕ) (n : ℕ) (answers : List Answer)
    → (kafka_producer_produce buf (full n []) ≡ none)
      × (kafka_producer_produce buf (full n (accepted ∷ answers))
          ≡ some (retries n buf (produces buf ∷ polls ∷ [])))
      × (kafka_producer_produce buf (full n (refused ∷ answers))
          ≡ some (retries n buf (produces buf ∷ logs ∷ polls ∷ [])))
unfolding kafka_producer_produce
kafka_producer_produce_lem buf n answers =
    (unreturned buf n, retried buf n _ _ refl, retried buf n _ _ refl)
