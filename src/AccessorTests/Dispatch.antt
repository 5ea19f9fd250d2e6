-- ===== src/AccessorTests/Dispatch.antt =====
-- The choice of the tests to run in mminline-tests.c. A word of the command line is an element of
-- `TestWord`; messages are left out.
use cs0330_fall2022_7_malloc.Base.{ℕ, suc, ◌+◌, List, [], ◌∷◌}
use cs0330_fall2022_7_malloc.Machine.{Cmd, pure, ◌>>=◌, ◌>>◌}
use cs0330_fall2022_7_malloc.AccessorTests.{
  set_size_test, set_allocated_test, set_size_and_allocated_test, end_tag_test, prev_test,
  next_test, payload_to_block_test, next_size_allocated_test, prev_size_allocated_test,
  set_blink_test, set_flink_test,
}
use cs0330_fall2022_7_malloc.AccessorTests.Lists.{insert_free_block_test, pull_free_block_test}

-- The names that `foreach_test` compares a word with.
pub data TestName : Type 0 where
  named_set_blink named_set_flink named_insert_free_block named_pull_free_block : TestName
  named_block_size named_block_allocated named_block_size_and_allocated named_end_tag : TestName
  named_block_prev named_block_next named_payload_to_block : TestName
  named_next_size_and_allocated named_prev_size_and_allocated : TestName

-- `number` is what `sscanf` reads as one.
pub data TestWord : Type 0 where
  all_word : TestWord
  test_word : TestName → TestWord
  number : TestWord
  unknown : TestWord

unfoldable pub test_named : TestName → (addr : ℕ → ℕ) → Cmd (Unit {0})
test_named named_set_blink = set_blink_test
test_named named_set_flink = set_flink_test
test_named named_insert_free_block = insert_free_block_test
test_named named_pull_free_block = pull_free_block_test
test_named named_block_size = set_size_test
test_named named_block_allocated = set_allocated_test
test_named named_block_size_and_allocated = set_size_and_allocated_test
test_named named_end_tag = end_tag_test
test_named named_block_prev = prev_test
test_named named_block_next = next_test
test_named named_payload_to_block = payload_to_block_test
test_named named_next_size_and_allocated = next_size_allocated_test
test_named named_prev_size_and_allocated = prev_size_allocated_test

-- `addrs j` are the addresses that the run number `j` of a test gets; the test returns no result.
unfoldable pub run_test_in_separate_process :
    (func : (ℕ → ℕ) → Cmd (Unit {0})) → (addr : ℕ → ℕ) → Cmd ℕ
run_test_in_separate_process func addr = func addr >> pure 0

-- The calls of the branch for `all`, in their order.
unfoldable pub all_tests : List TestName
all_tests =
    named_block_size
    ∷ (named_block_allocated
        ∷ (named_block_size_and_allocated
            ∷ (named_end_tag
                ∷ (named_block_prev
                    ∷ (named_block_next
                        ∷ (named_payload_to_block
                            ∷ (named_next_size_and_allocated
                                ∷ (named_prev_size_and_allocated
                                    ∷ (named_set_blink
                                        ∷ (named_set_flink
                                            ∷ (named_insert_free_block
                                                ∷ (named_pull_free_block ∷ []))))))))))))

-- The calls one after the other; the results are added up, and not used.
unfoldable pub run_tests : (addrs : ℕ → ℕ → ℕ) → List TestName → (functions_passed : ℕ) → Cmd ℕ
run_tests addrs [] functions_passed = pure functions_passed
run_tests addrs (t ∷ tests) functions_passed = do
  passed ← run_test_in_separate_process (test_named t) (addrs 0)
  run_tests (λ j. addrs (suc j)) tests (functions_passed + passed)

unfoldable pub for_words : (addrs : ℕ → ℕ → ℕ) → List TestWord → (functions_passed : ℕ) → Cmd ℕ
for_words addrs [] functions_passed = pure functions_passed
for_words addrs (test_word t ∷ words) functions_passed = do
  passed ← run_test_in_separate_process (test_named t) (addrs 0)
  for_words (λ j. addrs (suc j)) words (functions_passed + passed)
for_words addrs (all_word ∷ words) functions_passed = for_words addrs words functions_passed
for_words addrs (number ∷ words) functions_passed = for_words addrs words functions_passed
for_words addrs (unknown ∷ words) functions_passed = for_words addrs words functions_passed

-- The words after the name of the program.
unfoldable pub foreach_test : (addrs : ℕ → ℕ → ℕ) → List TestWord → Cmd ℕ
unfolding run_tests for_words all_tests
foreach_test addrs (all_word ∷ words) = run_tests addrs all_tests 0
foreach_test addrs words = for_words addrs words 0

-- What `main` returns.
unfoldable pub main : (addrs : ℕ → ℕ → ℕ) → List TestWord → Cmd ℕ
unfolding foreach_test
main addrs [] = pure 1
main addrs (w ∷ words) = foreach_test addrs (w ∷ words) >> pure 0

-- The words that name tests.
abbrev pub by_name : List TestName → List TestWord
by_name [] = []
by_name (t ∷ tests) = test_word t ∷ by_name tests

-- Whether the names are the same.
abbrev pub number_of : TestName → ℕ
number_of named_set_blink = 0
number_of named_set_flink = 1
number_of named_insert_free_block = 2
number_of named_pull_free_block = 3
number_of named_block_size = 4
number_of named_block_allocated = 5
number_of named_block_size_and_allocated = 6
number_of named_end_tag = 7
number_of named_block_prev = 8
number_of named_block_next = 9
number_of named_payload_to_block = 10
number_of named_next_size_and_allocated = 11
number_of named_prev_size_and_allocated = 12
