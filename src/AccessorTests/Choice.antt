-- ===== src/AccessorTests/Choice.antt =====
-- Which tests of mminline-tests.c the word `all` runs.
use cs0330_fall2022_7_malloc.Base.{ℕ, suc, ◌+◌, ◌≡◌, refl, List, [], ◌∷◌, count}
use cs0330_fall2022_7_malloc.Machine.{State, Run, ok, fault, aborted, out_of_fuel, Cmd, proceed}
use cs0330_fall2022_7_malloc.AccessorTests.Dispatch.{
  TestName, named_set_blink, named_set_flink, named_insert_free_block, named_pull_free_block,
  named_block_size, named_block_allocated, named_block_size_and_allocated, named_end_tag,
  named_block_prev, named_block_next, named_payload_to_block, named_next_size_and_allocated,
  named_prev_size_and_allocated, TestWord, all_word, test_named, run_test_in_separate_process,
  run_tests, for_words, all_tests, foreach_test, by_name, number_of,
}

-- The names as numbers.
abbrev pub numbers_of : List TestName → List ℕ
numbers_of [] = []
numbers_of (t ∷ tests) = number_of t ∷ numbers_of tests

proceed-same :
    {A B : Type 0} (r : Run A) (k k' : A → Cmd B)
    → ((a : A) (s : State) → k a s ≡ k' a s)
    → proceed r k ≡ proceed r k'
proceed-same (ok a s) k k' h = h a s
proceed-same fault k k' h = refl
proceed-same aborted k k' h = refl
proceed-same out_of_fuel k k' h = refl

run_by_name :
    (tests : List TestName) (addrs : ℕ → ℕ → ℕ) (n : ℕ) (s : State)
    → run_tests addrs tests n s ≡ for_words addrs (by_name tests) n s
unfolding run_tests for_words
run_by_name [] addrs n s = refl
run_by_name (t ∷ tests) addrs n s =
    proceed-same (run_test_in_separate_process (test_named t) (addrs 0) s)
      (λ passed. run_tests (λ j. addrs (suc j)) tests (n + passed))
      (λ passed. for_words (λ j. addrs (suc j)) (by_name tests) (n + passed))
      (λ passed s'. run_by_name tests (λ j. addrs (suc j)) (n + passed) s')

-- The word `all` runs the same tests, on the same addresses, as a command line that names them one
-- by one, and each of the thirteen names stands in that line exactly once. The words after `all` do
-- not matter.
pub foreach_test_all :
    (addrs : ℕ → ℕ → ℕ) (words : List TestWord) (s : State) (t : TestName)
    → (foreach_test addrs (all_word ∷ words) s ≡ foreach_test addrs (by_name all_tests) s)
      × (count (number_of t) (numbers_of all_tests) ≡ 1)
unfolding foreach_test all_tests
foreach_test_all addrs words s t = (run_by_name all_tests addrs 0 s, once t)
  where
    once : (t : TestName) → count (number_of t) (numbers_of all_tests) ≡ 1
    once named_set_blink = refl
    once named_set_flink = refl
    once named_insert_free_block = refl
    once named_pull_free_block = refl
    once named_block_size = refl
    once named_block_allocated = refl
    once named_block_size_and_allocated = refl
    once named_end_tag = refl
    once named_block_prev = refl
    once named_block_next = refl
    once named_payload_to_block = refl
    once named_next_size_and_allocated = refl
    once named_prev_size_and_allocated = refl
