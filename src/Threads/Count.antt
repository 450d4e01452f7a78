-- ===== src/Threads/Count.antt =====
-- How many threads src/main.c starts, against the room that it allocates for them.
use schaufel.Common.{ℕ, zero, suc, ◌≡◌, refl, Option, List, [], ◌∷◌, length, length-append, arith}
use schaufel.Threads.{looked_up, repeat_instance, init_threads, get_thread_count}

length-repeat_instance : (n i : ℕ) → length (repeat_instance n i) ≡ n
length-repeat_instance zero i = refl
length-repeat_instance (suc n) i = omega (arith, length-repeat_instance n i)

-- `init_threads` starts just as many threads as `get_thread_count` counts, also for an instance
-- without a number of threads, where both take the number of the instance before it.
pub length-init_threads :
    (i last : ℕ) (cs : List (Option ℕ)) → length (init_threads i last cs) ≡ get_thread_count last cs
unfolding init_threads get_thread_count
length-init_threads i last [] = refl
length-init_threads i last (c ∷ cs) =
    let n = looked_up c last in
    let here = length-repeat_instance n i in
    let later = length-init_threads (suc i) n cs in
    let both = length-append (repeat_instance n i) (init_threads (suc i) n cs) in omega arith
