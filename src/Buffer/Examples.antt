-- ===== src/Buffer/Examples.antt =====
-- A test and an instance for `dynamic_buffer`.
use async_net.Base.{[], ◌∷◌, ◌≡◌, refl, bytes, List, arith}
use async_net.Buffer.{new_buffer, contents}
use async_net.Buffer.Queue.{IsValid, Step, put, get, run, run_queue, fit, run-run_queue}

abbrev some_steps : List Step
some_steps = put 4 (bytes "abc") ∷ get 2 ∷ put 8 (bytes "defgh") ∷ get 1 ∷ put 1 (bytes "i") ∷ []

grown : contents (run (new_buffer 2) some_steps) ≡ bytes "defghi"
unfolding run contents new_buffer
grown = refl

run-run_queue_example :
    IsValid (run (new_buffer 2) some_steps)
    × (contents (run (new_buffer 2) some_steps) ≡ run_queue (contents (new_buffer 2)) some_steps)
unfolding fit new_buffer
run-run_queue_example =
    run-run_queue (new_buffer 2) some_steps (record { ordered = omega arith; inside = omega arith })
      refl
