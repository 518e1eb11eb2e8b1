-- ===== src/MapReduce/Counts.antt =====
-- What becomes of every word.
use native.Mathlib.Nat.{mod-lt}
use distributed_systems_iiit.Common.{
  ℕ, ◌+◌, ◌-◌, ◌<◌, ◌≡◌, ◌∙◌, ap, inl, inr, some, List, [], ◌∷◌, ◌==◌, ==_iff, nat_key, arith,
  or_else, if◌then◌else◌, Bool-cases,
}
use distributed_systems_iiit.Common.Words.{Word, word_key}
use distributed_systems_iiit.Common.Dict.{Dict, lookup, insert, lookup-insert, lookup-nil}
use distributed_systems_iiit.MapReduce.Partition.{
  each_mapped, goes_to, lines_for, lookup-map_values,
}
use distributed_systems_iiit.MapReduce.{
  hash, bucket, Line, Files, map_word_count, add_lines, read_tasks, reduce_word_count,
}

-- How often a word stands in a file.
abbrev pub occurrences : Word → List Word → ℕ
occurrences w [] = 0
occurrences w (v ∷ rest) = if v == w then occurrences w rest + 1 else occurrences w rest

abbrev pub in_lines : Word → List (Line ℕ) → ℕ
in_lines w [] = 0
in_lines w ((v, n) ∷ rest) = if v == w then in_lines w rest + n else in_lines w rest

-- The lines of a reducer's file count a word that goes to it once for each time that it stands there.
in_lines-lines_for :
    (n r : ℕ) (w : Word) (words : List Word)
    → in_lines w (lines_for n r 1 words)
      ≡ (if goes_to r (bucket n w) then occurrences w words else 0)
unfolding lines_for
in_lines-lines_for n r w [] = ground arith
in_lines-lines_for n r w (v ∷ rest) = elim (Bool-cases (v == w)) [
  | inl e ↦
      ground
        (arith, in_lines-lines_for n r w rest, ap (λ (x : Word). bucket n x) ((==_iff v w).0 e))
  | inr e ↦ ground (arith, in_lines-lines_for n r w rest)
]

add_lines_counts :
    (w : Word) (lines : List (Line ℕ)) (counts : Dict Word ℕ)
    → or_else 0 (lookup w (add_lines lines counts)) ≡ or_else 0 (lookup w counts) + in_lines w lines
unfolding add_lines
add_lines_counts w [] counts = omega arith
add_lines_counts w ((v, n) ∷ rest) counts =
    add_lines_counts w rest (insert v (or_else 0 (lookup v counts) + n) counts)
    ∙ grind (arith, lookup-insert, ==_iff v w)

-- The map tasks, each with its file's words and the intermediate files that were there before.
abbrev pub map_tasks : ℕ → List (List Word × Files ℕ) → List (Files ℕ)
map_tasks n = each_mapped (map_word_count n)

abbrev pub all_occurrences : Word → List (List Word × Files ℕ) → ℕ
all_occurrences w [] = 0
all_occurrences w ((words, _) ∷ rest) = occurrences w words + all_occurrences w rest

module _ (n r : ℕ) (w : Word) (small : r < n) where
  read_tasks_counts :
      (inputs : List (List Word × Files ℕ)) (counts : Dict Word ℕ)
      → or_else 0 (lookup w (read_tasks r (map_tasks n inputs) counts))
        ≡ or_else 0 (lookup w counts)
          + (if goes_to r (bucket n w) then all_occurrences w inputs else 0)
  unfolding read_tasks
  read_tasks_counts [] counts = ground arith
  read_tasks_counts ((words, old) ∷ rest) counts =
      let lines : List (Line ℕ) = lines_for n r 1 words in
      rw (lookup-map_values {V = ℕ} n r 1 words old small, read_tasks)
        (read_tasks_counts rest (add_lines lines counts)
          ∙ ground (arith, add_lines_counts w lines counts, in_lines-lines_for n r w words))

-- Each of the reducers counts a word once for every time that it stands in a file of the map tasks,
-- if the word's bucket is the reducer's number, and not at all otherwise, whatever files were there
-- before. In particular a word with no bucket is counted by no reducer.
pub reduce_word_count_counts :
    (n r : ℕ) (w : Word) (inputs : List (List Word × Files ℕ))
    → r < n
    → or_else 0 (lookup w (reduce_word_count r (map_tasks n inputs)))
      ≡ (if goes_to r (bucket n w) then all_occurrences w inputs else 0)
unfolding reduce_word_count
reduce_word_count_counts n r w inputs small =
    read_tasks_counts n r w small inputs [] ∙ ground (arith, lookup-nil {V = ℕ} w)

-- A bucket is the number of one of the reducers, if there are any.
pub bucket-lt : (n i : ℕ) (w : Word) → 0 < n → bucket n w ≡ some i → i < n
unfolding bucket
bucket-lt n i w h e = ground (arith, mod-lt (hash w) h, mod-lt (18446744073709551616 - hash w) h)
