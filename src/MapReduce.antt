-- ===== src/MapReduce.antt =====
-- The worker of MapReduce (Assignment2/P2-MapReduce/server/main.go). A word is the list of its runes,
-- and a file comes as its words, as `strings.Fields` splits it: none is empty or has a blank. The
-- intermediate files of one map task are a map from the reducer's number to the lines, each a word
-- with a value: its count of one, or the name of its file. A name is the list of its runes too; a line
-- with a name is read as far as the first blank of the name. A name with a line break, which makes two
-- lines of one, is outside the model.
pub mod Partition
pub mod Counts
pub mod Index
pub mod Job
pub mod Loop
mod Tests
use distributed_systems_iiit.Common.{
  ℕ, zero, suc, ◌+◌, ◌-◌, ◌*◌, ◌%◌, Bool, true, false, Option, none, some, List, [], ◌∷◌, ◌++◌,
  ◌==◌, nat_key, ltb, leb, ◌&&◌, ◌||◌, or_else, if◌then◌else◌,
}
use distributed_systems_iiit.Common.Words.{Word, word_key}
use distributed_systems_iiit.Common.Dict.{Dict, lookup, insert}

-- `hash`, on 64-bit words: what a Go int holds, read without a sign.
unfoldable pub hash_from : ℕ → Word → ℕ
hash_from h [] = h
hash_from h (c ∷ rest) = hash_from ((31 * h + c) % 18446744073709551616) rest

unfoldable pub hash : Word → ℕ
unfolding hash_from
hash w = hash_from 0 w

-- The number of a file. A Go remainder has the sign of its dividend, so a negative hash leads to a
-- negative number, which is `none`, unless the remainder is 0.
unfoldable pub bucket : ℕ → Word → Option ℕ
unfolding hash
bucket num_reducers w =
    let h = hash w in
    let up = h % num_reducers in
    let down = (18446744073709551616 - h) % num_reducers in
    if ltb h 9223372036854775808 then some up else (if down == 0 then some 0 else none)

abbrev pub Line : Type 0 → Type 0
Line V = Word × V

abbrev pub Files : Type 0 → Type 0
Files V = Dict ℕ (List (Line V))

module _ {V : Type 0} where
  -- `os.Create` of the files from `i` on.
  unfoldable pub create_files : ℕ → ℕ → Files V → Files V
  create_files zero i files = files
  create_files (suc left) i files = create_files left (i + 1) (insert i [] files)

  -- A write to a file that could not be opened is an error that nobody reads.
  unfoldable pub write_word : Option ℕ → Line V → Files V → Files V
  write_word none line files = files
  write_word (some i) line files = elim (lookup i files) [
    | none ↦ files
    | some lines ↦ insert i (lines ++ (line ∷ [])) files
  ]

  unfoldable pub write_words : ℕ → V → List Word → Files V → Files V
  unfolding write_word bucket
  write_words num_reducers value [] files = files
  write_words num_reducers value (w ∷ rest) files =
      write_words num_reducers value rest (write_word (bucket num_reducers w) (w, value) files)

  -- `Map` in a mode that writes the value with each word; `num_reducers` is not 0, where the
  -- remainder panics.
  unfoldable pub map_values : ℕ → V → List Word → Files V → Files V
  unfolding create_files write_words
  map_values num_reducers value words files =
      write_words num_reducers value words (create_files num_reducers 0 files)

-- `Map` in the mode "word_count".
abbrev pub map_word_count : ℕ → List Word → Files ℕ → Files ℕ
map_word_count num_reducers = map_values num_reducers 1

-- `Map` in the mode "inverted_index".
abbrev pub map_inverted_index : ℕ → Word → List Word → Files Word → Files Word
map_inverted_index num_reducers base_name = map_values num_reducers base_name

-- The lines of one file, added to the counts.
unfoldable pub add_lines : List (Line ℕ) → Dict Word ℕ → Dict Word ℕ
add_lines [] counts = counts
add_lines ((w, n) ∷ rest) counts =
    add_lines rest (insert w (or_else 0 (lookup w counts) + n) counts)

-- The loop over the map tasks, which ends at the first one with no file for the reducer.
unfoldable pub read_tasks : ℕ → List (Files ℕ) → Dict Word ℕ → Dict Word ℕ
unfolding add_lines
read_tasks reducer [] counts = counts
read_tasks reducer (files ∷ rest) counts = elim (lookup reducer files) [
  | none ↦ counts
  | some lines ↦ read_tasks reducer rest (add_lines lines counts)
]

-- The counts that `reduceWordCount` writes.
unfoldable pub reduce_word_count : ℕ → List (Files ℕ) → Dict Word ℕ
unfolding read_tasks
reduce_word_count reducer tasks = read_tasks reducer tasks []

-- By word, the names of its files.
abbrev pub InvertedIndex : Type 0
InvertedIndex = Dict Word (Dict Word Bool)

-- The runes at which `fmt.Sscanf` ends a `%s` (`isSpace` of fmt).
abbrev between : ℕ → ℕ → ℕ → Bool
between a b c = leb a c && leb c b

abbrev pub is_space : ℕ → Bool
is_space c =
    between 9 13 c
    || ((c == 32)
        || ((c == 133)
            || ((c == 160)
                || ((c == 5760)
                    || (between 8192 8202 c
                        || (between 8232 8233 c
                            || ((c == 8239) || ((c == 8287) || (c == 12288)))))))))

unfoldable pub up_to_space : Word → Word
up_to_space [] = []
up_to_space (c ∷ rest) = let more = up_to_space rest in if is_space c then [] else c ∷ more

-- What the second `%s` reads of a line: it passes over the blanks before it.
unfoldable pub scan_name : Word → Word
unfolding up_to_space
scan_name [] = []
scan_name (c ∷ rest) =
    let later = scan_name rest in if is_space c then later else up_to_space (c ∷ rest)

-- The lines of one file, added to the index.
unfoldable pub add_index_lines : List (Line Word) → InvertedIndex → InvertedIndex
unfolding scan_name
add_index_lines [] index = index
add_index_lines ((w, name) ∷ rest) index =
    add_index_lines rest
      (insert w (insert (scan_name name) true (or_else [] (lookup w index))) index)

unfoldable pub read_index_tasks : ℕ → List (Files Word) → InvertedIndex → InvertedIndex
unfolding add_index_lines
read_index_tasks reducer [] index = index
read_index_tasks reducer (files ∷ rest) index = elim (lookup reducer files) [
  | none ↦ index
  | some lines ↦ read_index_tasks reducer rest (add_index_lines lines index)
]

-- The index that `reduceInvertedIndex` writes.
unfoldable pub reduce_inverted_index : ℕ → List (Files Word) → InvertedIndex
unfolding read_index_tasks
reduce_inverted_index reducer tasks = read_index_tasks reducer tasks []
