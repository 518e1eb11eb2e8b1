-- ===== src/MapReduce/Job.antt =====
-- A job in either mode (Assignment2/P2-MapReduce/client/main.go): the master hands the map tasks to
-- workers and then the reduce tasks. Which workers can be reached is an argument. The files under
-- `intermediate` are listed by map task, and those of an earlier job stay there.
use mathlib.Core.List.{append-nil}
use distributed_systems_iiit.Common.{
  ℕ, zero, suc, ◌+◌, ◌<◌, ◌≤◌, ◌≡◌, ◌∙◌, refl, ap, Bool, true, false, Option, none, some, List, [],
  ◌∷◌, ◌++◌, ==_iff, nat_key, arith, or_else, leb, ltb, ◌&&◌, ◌||◌, if◌then◌else◌, string_key,
}
use distributed_systems_iiit.Common.Lists.{length}
use distributed_systems_iiit.Common.Words.{Word, word_key}
use distributed_systems_iiit.Common.Dict.{Dict, lookup}
use distributed_systems_iiit.MapReduce.{
  bucket, Files, map_word_count, reduce_word_count, InvertedIndex, reduce_inverted_index,
}
use distributed_systems_iiit.MapReduce.Partition.{each_mapped}
use distributed_systems_iiit.MapReduce.Counts.{
  map_tasks, all_occurrences, reduce_word_count_counts, bucket-lt,
}
use distributed_systems_iiit.MapReduce.Index.{
  lists, map_named_file, index_tasks, scanned_in, lists-reduce_inverted_index, found_in,
  scanned_in-plain, HasPlainNames,
}

-- The port of a worker that maps, and of one that reduces.
abbrev pub map_port : ℕ → ℕ
map_port task = 56052 + task

abbrev pub reduce_port : ℕ → ℕ → ℕ
reduce_port num_mappers task = 56052 + num_mappers + task

module _ {A V : Type 0} (map_task : A → Files V → Files V) where
  -- The map tasks from one on; a task whose worker is not reached leaves the files that were there.
  unfoldable pub assign_map_tasks : (ℕ → Bool) → ℕ → List (A × Files V) → List (Files V)
  assign_map_tasks reached task [] = []
  assign_map_tasks reached task ((input, old) ∷ rest) =
      (if reached (map_port task) then map_task input old else old)
      ∷ assign_map_tasks reached (task + 1) rest

module _ {V R : Type 0} (reduce_task : ℕ → List (Files V) → R) where
  -- So many reduce tasks from one on, with what each writes.
  unfoldable pub assign_reduce_tasks : (ℕ → Bool) → ℕ → ℕ → ℕ → List (Files V) → List (Option R)
  assign_reduce_tasks reached num_mappers zero task files = []
  assign_reduce_tasks reached num_mappers (suc left) task files =
      (if reached (reduce_port num_mappers task) then some (reduce_task task files) else none)
      ∷ assign_reduce_tasks reached num_mappers left (task + 1) files

module _ {A V R : Type 0} (map_task : A → Files V → Files V)
    (reduce_task : ℕ → List (Files V) → R) where
  -- The whole job, with the files of tasks that only an earlier job had.
  unfoldable pub run_job : (ℕ → Bool) → ℕ → List (A × Files V) → List (Files V) → List (Option R)
  unfolding assign_map_tasks assign_reduce_tasks
  run_job reached n inputs stale =
      assign_reduce_tasks reduce_task reached (length inputs) n 0
        (assign_map_tasks map_task reached 0 inputs ++ stale)

-- A job in the mode "word_count".
abbrev pub run_word_count :
    (ℕ → Bool) → ℕ → List (List Word × Files ℕ) → List (Files ℕ) → List (Option (Dict Word ℕ))
run_word_count reached n = run_job (map_word_count n) reduce_word_count reached n

-- A job in the mode "inverted_index".
abbrev pub run_inverted_index :
    (ℕ → Bool)
    → ℕ
    → List ((Word × List Word) × Files Word)
    → List (Files Word)
    → List (Option InvertedIndex)
run_inverted_index reached n = run_job (map_named_file n) reduce_inverted_index reached n

-- What the reducers count for a word, together.
unfoldable pub total_count : Word → List (Option (Dict Word ℕ)) → ℕ
total_count w [] = 0
total_count w (none ∷ rest) = total_count w rest
total_count w (some counts ∷ rest) = or_else 0 (lookup w counts) + total_count w rest

-- Whether a reducer lists the file for the word.
unfoldable pub any_lists : Word → Word → List (Option InvertedIndex) → Bool
any_lists w name [] = false
any_lists w name (none ∷ rest) = any_lists w name rest
any_lists w name (some index ∷ rest) = lists w name index || any_lists w name rest

module _ (reached : ℕ → Bool) (all_reached : (port : ℕ) → reached port ≡ true) where
  assign_map_tasks-each_mapped :
      {A V : Type 0} (map_task : A → Files V → Files V) (task : ℕ) (inputs : List (A × Files V))
      → assign_map_tasks map_task reached task inputs ≡ each_mapped map_task inputs
  unfolding assign_map_tasks
  assign_map_tasks-each_mapped map_task task [] = refl
  assign_map_tasks-each_mapped {V = V} map_task task ((input, old) ∷ rest) =
      rw (all_reached (map_port task)) (
        ap (λ (l : List (Files V)). map_task input old ∷ l)
          (assign_map_tasks-each_mapped map_task (task + 1) rest))

  pub run_job-each_mapped :
      {A V R : Type 0} (map_task : A → Files V → Files V) (reduce_task : ℕ → List (Files V) → R)
      (n : ℕ) (inputs : List (A × Files V))
      → run_job map_task reduce_task reached n inputs []
        ≡ assign_reduce_tasks reduce_task reached (length inputs) n 0 (each_mapped map_task inputs)
  unfolding run_job
  run_job-each_mapped map_task reduce_task n inputs =
      rw
        (
          append-nil (assign_map_tasks map_task reached 0 inputs),
          assign_map_tasks-each_mapped map_task 0 inputs,
        )
        refl

  module _ (n b : ℕ) (w : Word) (e : bucket n w ≡ some b) where
    -- The reducers from `task` on; one of them has the bucket, or none has.
    total_count-assign_reduce_tasks :
        (num_mappers left task : ℕ) (inputs : List (List Word × Files ℕ))
        → task + left ≤ n
        → total_count w (
            assign_reduce_tasks reduce_word_count reached num_mappers left task
              (map_tasks n inputs))
          ≡ (if leb task b && ltb b (task + left) then all_occurrences w inputs else 0)
    unfolding assign_reduce_tasks total_count
    total_count-assign_reduce_tasks num_mappers zero task inputs h = ground arith
    total_count-assign_reduce_tasks num_mappers (suc left) task inputs h =
        rw (all_reached (reduce_port num_mappers task)) (
          ground (
            arith,
            reduce_word_count_counts n task w inputs (omega (arith, h)),
            total_count-assign_reduce_tasks num_mappers left (task + 1) inputs (omega (arith, h)),
            ==_iff b task,
          ))

    any_lists-assign_reduce_tasks :
        (name : Word) (num_mappers left task : ℕ) (inputs : List ((Word × List Word) × Files Word))
        → task + left ≤ n
        → any_lists w name (
            assign_reduce_tasks reduce_inverted_index reached num_mappers left task
              (index_tasks n inputs))
          ≡ ((leb task b && ltb b (task + left)) && scanned_in w name inputs)
    unfolding assign_reduce_tasks any_lists
    any_lists-assign_reduce_tasks name num_mappers zero task inputs h = ground arith
    any_lists-assign_reduce_tasks name num_mappers (suc left) task inputs h =
        rw (all_reached (reduce_port num_mappers task)) (
          ground (
            arith,
            lists-reduce_inverted_index n task w name inputs (omega (arith, h)),
            any_lists-assign_reduce_tasks name num_mappers left (task + 1) inputs
                (omega (arith, h)),
            ==_iff b task,
          ))

-- When every worker is reached and no file of an earlier job is left over, the reducers of a job
-- count a word with a bucket together exactly as often as it stands in the input files.
pub total_count-run_word_count :
    (reached : ℕ → Bool) (n : ℕ) (w : Word) (b : ℕ) (inputs : List (List Word × Files ℕ))
    → ((port : ℕ) → reached port ≡ true)
    → 0 < n
    → bucket n w ≡ some b
    → total_count w (run_word_count reached n inputs []) ≡ all_occurrences w inputs
total_count-run_word_count reached n w b inputs all_reached some_reducer e =
    ap (total_count w)
      (run_job-each_mapped reached all_reached (map_word_count n) reduce_word_count n inputs)
    ∙ (total_count-assign_reduce_tasks reached all_reached n b w e (length inputs) n 0 inputs
          (omega arith)
        ∙ ground (arith, bucket-lt n b w some_reducer e))

-- When every worker is reached, no file of an earlier job is left over and no file's name has a blank,
-- the reducers of a job that inverts an index list a file for a word with a bucket exactly if an
-- input file of that name has the word.
pub any_lists-run_inverted_index :
    (reached : ℕ → Bool) (n : ℕ) (w name : Word) (b : ℕ)
    (inputs : List ((Word × List Word) × Files Word))
    → ((port : ℕ) → reached port ≡ true)
    → 0 < n
    → bucket n w ≡ some b
    → HasPlainNames inputs
    → any_lists w name (run_inverted_index reached n inputs []) ≡ found_in w name inputs
any_lists-run_inverted_index reached n w name b inputs all_reached some_reducer e plain =
    ap (any_lists w name)
      (run_job-each_mapped reached all_reached (map_named_file n) reduce_inverted_index n inputs)
    ∙ (any_lists-assign_reduce_tasks reached all_reached n b w e name (length inputs) n 0 inputs
          (omega arith)
        ∙ (ground (arith, bucket-lt n b w some_reducer e) ∙ scanned_in-plain w name inputs plain))
