-- ===== src/MapReduce/Tests.antt =====
-- Two files and three reducers; one word has a hash beyond 2 ^ 63.
use distributed_systems_iiit.Common.{
  ℕ, ◌≡◌, string_key, true, ltb, refl, none, some, List, [], ◌∷◌, arith, or_else, if◌then◌else◌,
}
use distributed_systems_iiit.Common.Words.{Word, word_key}
use distributed_systems_iiit.Common.Dict.{lookup, insert}
use distributed_systems_iiit.MapReduce.{
  Files, hash, bucket, map_values, create_files, write_words, write_word, read_tasks,
  reduce_word_count, reduce_inverted_index, add_lines, add_index_lines,
}
use distributed_systems_iiit.MapReduce.Partition.{goes_to}
use distributed_systems_iiit.MapReduce.Index.{found_in, index_tasks}
use distributed_systems_iiit.MapReduce.Job.{
  run_job, run_word_count, run_inverted_index, assign_map_tasks, assign_reduce_tasks, total_count,
  any_lists, total_count-run_word_count, any_lists-run_inverted_index,
}
use distributed_systems_iiit.MapReduce.Loop.{read_from, disk_of, read_from_ends}
use distributed_systems_iiit.MapReduce.Counts.{map_tasks, all_occurrences, reduce_word_count_counts}

-- "ab"
abbrev ab : Word
ab = 97 ∷ 98 ∷ []

-- "implementation"
abbrev implementation : Word
implementation =
    105 ∷ 109 ∷ 112 ∷ 108 ∷ 101 ∷ 109 ∷ 101 ∷ 110 ∷ 116 ∷ 97 ∷ 116 ∷ 105 ∷ 111 ∷ 110 ∷ []

abbrev inputs : List (List Word × Files ℕ)
inputs = (ab ∷ implementation ∷ ab ∷ [], (0, (implementation, 7) ∷ []) ∷ []) ∷ (ab ∷ [], []) ∷ []

bucket_of_ab : bucket 3 ab ≡ some 0
unfolding bucket hash
bucket_of_ab = refl

-- A negative remainder: the word has no file.
implementation_is_lost : bucket 3 implementation ≡ none
unfolding bucket hash
implementation_is_lost = refl

counted : reduce_word_count 0 (map_tasks 3 inputs) ≡ (ab, 3) ∷ []
unfolding reduce_word_count read_tasks map_values write_words write_word create_files lookup insert
counted = refl

-- "a" and "b"
abbrev a : Word
a = 97 ∷ []

abbrev b : Word
b = 98 ∷ []

abbrev files : List ((Word × List Word) × Files Word)
files = ((a, implementation ∷ []), []) ∷ ((b, ab ∷ ab ∷ []), []) ∷ []

reduce_word_count_counts_example :
    or_else 0 (lookup ab (reduce_word_count 0 (map_tasks 3 inputs)))
    ≡ (if goes_to 0 (bucket 3 ab) then all_occurrences ab inputs else 0)
reduce_word_count_counts_example = reduce_word_count_counts 3 0 ab inputs (omega arith)

any_lists-run_inverted_index_example :
    any_lists ab b (run_inverted_index (λ port. true) 3 files []) ≡ found_in ab b files
any_lists-run_inverted_index_example =
    any_lists-run_inverted_index (λ port. true) 3 ab b 0 files (λ port. refl) (omega arith)
      bucket_of_ab ((refl, tt), ((refl, tt), tt))

-- The file "a b" is listed as "a".
blank_cuts_name :
    reduce_inverted_index 0 (index_tasks 3 (((97 ∷ 32 ∷ 98 ∷ [], ab ∷ []), []) ∷ []))
    ≡ (ab, (a, true) ∷ []) ∷ []
unfolding reduce_inverted_index add_index_lines map_values write_words write_word create_files
    lookup insert bucket hash
blank_cuts_name = refl

total_count-run_word_count_example :
    total_count ab (run_word_count (λ port. true) 3 inputs []) ≡ all_occurrences ab inputs
total_count-run_word_count_example =
    total_count-run_word_count (λ port. true) 3 ab 0 inputs (λ port. refl) (omega arith)
      bucket_of_ab

-- The first mapper is not reached and there was no earlier job: the second file is not counted either.
later_tasks_are_lost :
    total_count ab
      (run_word_count (λ port. ltb 56052 port) 3 ((ab ∷ [], []) ∷ (ab ∷ [], []) ∷ []) [])
    ≡ 0
unfolding run_job assign_map_tasks assign_reduce_tasks total_count reduce_word_count read_tasks
    map_values write_words write_word create_files lookup insert
later_tasks_are_lost = refl

-- A file that an earlier job left for a second map task is counted too.
stale_is_counted :
    total_count ab
      (run_word_count (λ port. true) 1 ((ab ∷ [], []) ∷ []) (((0, (ab, 1) ∷ []) ∷ []) ∷ []))
    ≡ 2
unfolding run_job assign_map_tasks assign_reduce_tasks total_count reduce_word_count read_tasks
    map_values write_words write_word create_files lookup insert bucket hash
stale_is_counted = refl

read_from_ends_example :
    (read_from add_lines 3 (disk_of 0 (map_tasks 3 inputs)) 0 []
      ≡ some (reduce_word_count 0 (map_tasks 3 inputs)))
    × (read_from add_index_lines 3 (disk_of 0 (index_tasks 3 files)) 0 []
        ≡ some (reduce_inverted_index 0 (index_tasks 3 files)))
read_from_ends_example =
    read_from_ends 0 3 3 (map_tasks 3 inputs) (index_tasks 3 files) (omega arith) (omega arith)
