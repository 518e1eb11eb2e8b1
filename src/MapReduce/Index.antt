-- ===== src/MapReduce/Index.antt =====
-- Which files the inverted index lists for a word.
use distributed_systems_iiit.Common.{
  ℕ, ◌<◌, ◌≡◌, ◌∙◌, ap, refl, inl, inr, string_key, Bool, true, false, List, [], ◌∷◌, ◌==◌, ==_iff,
  nat_key, arith, or_else, ◌&&◌, ◌||◌, Bool-cases,
}
use distributed_systems_iiit.Common.Lists.{All}
use distributed_systems_iiit.Common.Words.{Word, word_key}
use distributed_systems_iiit.Common.Dict.{Dict, lookup, insert, lookup-insert, lookup-nil}
use distributed_systems_iiit.MapReduce.Partition.{
  each_mapped, goes_to, lines_for, lookup-map_values,
}
use distributed_systems_iiit.MapReduce.{
  bucket, Line, Files, map_inverted_index, InvertedIndex, add_index_lines, read_index_tasks,
  reduce_inverted_index, is_space, up_to_space, scan_name,
}

-- Whether the index lists the file for the word.
abbrev pub lists : Word → Word → InvertedIndex → Bool
lists w name index = or_else false (lookup name (or_else [] (lookup w index)))

abbrev pub contains : Word → List Word → Bool
contains w [] = false
contains w (v ∷ rest) = (v == w) || contains w rest

abbrev in_index_lines : Word → Word → List (Line Word) → Bool
in_index_lines w name [] = false
in_index_lines w name ((v, m) ∷ rest) =
    ((v == w) && (scan_name m == name)) || in_index_lines w name rest

in_index_lines-lines_for :
    (n r : ℕ) (w : Word) (name value : Word) (words : List Word)
    → in_index_lines w name (lines_for n r value words)
      ≡ (goes_to r (bucket n w) && ((scan_name value == name) && contains w words))
unfolding lines_for
in_index_lines-lines_for n r w name value [] = ground arith
in_index_lines-lines_for n r w name value (v ∷ rest) = elim (Bool-cases (v == w)) [
  | inl e ↦ ground (
    arith,
    in_index_lines-lines_for n r w name value rest,
    ap (λ (x : Word). bucket n x) ((==_iff v w).0 e),
  )
  | inr e ↦ ground (arith, in_index_lines-lines_for n r w name value rest)
]

lists-insert :
    (w v : Word) (name m : Word) (index : InvertedIndex)
    → lists w name (insert v (insert m true (or_else [] (lookup v index))) index)
      ≡ (((v == w) && (m == name)) || lists w name index)
lists-insert w v name m index = elim (Bool-cases (v == w)) [
  | inl e ↦
      let at : v ≡ w = (==_iff v w).0 e in
      rw (lookup-insert v w (insert m true (or_else [] (lookup v index))) index, e, at)
        (rw (lookup-insert m name true (or_else [] (lookup w index))) (ground arith))
  | inr e ↦ rw (lookup-insert v w (insert m true (or_else [] (lookup v index))) index, e) refl
]

lists-add_index_lines :
    (w : Word) (name : Word) (lines : List (Line Word)) (index : InvertedIndex)
    → lists w name (add_index_lines lines index)
      ≡ (in_index_lines w name lines || lists w name index)
unfolding add_index_lines
lists-add_index_lines w name [] index = refl
lists-add_index_lines w name ((v, m) ∷ rest) index =
    lists-add_index_lines w name rest _ ∙ ground (arith, lists-insert w v name (scan_name m) index)

-- The map tasks: each file's name and words, and the intermediate files that were there before.
abbrev pub map_named_file : ℕ → Word × List Word → Files Word → Files Word
map_named_file n (value, words) = map_inverted_index n value words

abbrev pub index_tasks : ℕ → List ((Word × List Word) × Files Word) → List (Files Word)
index_tasks n = each_mapped (map_named_file n)

-- Whether a file with a name that is read as this one has the word.
abbrev pub scanned_in : Word → Word → List ((Word × List Word) × Files Word) → Bool
scanned_in w name [] = false
scanned_in w name (((value, words), _) ∷ rest) =
    ((scan_name value == name) && contains w words) || scanned_in w name rest

-- Whether a file of the name has the word.
abbrev pub found_in : Word → Word → List ((Word × List Word) × Files Word) → Bool
found_in w name [] = false
found_in w name (((value, words), _) ∷ rest) =
    ((value == name) && contains w words) || found_in w name rest

-- No name has a blank.
abbrev pub HasPlainNames : List ((Word × List Word) × Files Word) → Type 0
HasPlainNames [] = Unit
HasPlainNames (((value, _), _) ∷ rest) = All (λ c. is_space c ≡ false) value × HasPlainNames rest

up_to_space-plain : (name : Word) → All (λ c. is_space c ≡ false) name → up_to_space name ≡ name
unfolding up_to_space
up_to_space-plain [] h = refl
up_to_space-plain (c ∷ rest) h =
    rw (h.0, up_to_space) (ap (λ (v : Word). c ∷ v) (up_to_space-plain rest h.1))

scan_name-plain : (name : Word) → All (λ c. is_space c ≡ false) name → scan_name name ≡ name
unfolding scan_name
scan_name-plain [] h = refl
scan_name-plain (c ∷ rest) h =
    rw (h.0, scan_name, up_to_space) (ap (λ (v : Word). c ∷ v) (up_to_space-plain rest h.1))

pub scanned_in-plain :
    (w name : Word) (inputs : List ((Word × List Word) × Files Word))
    → HasPlainNames inputs
    → scanned_in w name inputs ≡ found_in w name inputs
scanned_in-plain w name [] h = refl
scanned_in-plain w name (((value, words), _) ∷ rest) h =
    rw (scan_name-plain value h.0, scanned_in-plain w name rest h.1) refl

lists-read_index_tasks :
    (n r : ℕ) (w : Word) (name : Word) (inputs : List ((Word × List Word) × Files Word))
    (index : InvertedIndex)
    → r < n
    → lists w name (read_index_tasks r (index_tasks n inputs) index)
      ≡ ((goes_to r (bucket n w) && scanned_in w name inputs) || lists w name index)
unfolding read_index_tasks
lists-read_index_tasks n r w name [] index small = ground arith
lists-read_index_tasks n r w name (((value, words), old) ∷ rest) index small =
    let lines : List (Line Word) = lines_for n r value words in
    rw (lookup-map_values n r value words old small, read_index_tasks)
      (lists-read_index_tasks n r w name rest (add_index_lines lines index) small
        ∙ ground (
          arith,
          lists-add_index_lines w name lines index,
          in_index_lines-lines_for n r w name value words,
        ))

-- A reducer's index lists a name for a word exactly if a map task's file whose name is read as it has
-- the word and the word's bucket is the reducer's number, whatever intermediate files were there before.
pub lists-reduce_inverted_index :
    (n r : ℕ) (w : Word) (name : Word) (inputs : List ((Word × List Word) × Files Word))
    → r < n
    → lists w name (reduce_inverted_index r (index_tasks n inputs))
      ≡ (goes_to r (bucket n w) && scanned_in w name inputs)
unfolding reduce_inverted_index
lists-reduce_inverted_index n r w name inputs small =
    lists-read_index_tasks n r w name inputs [] small
    ∙ ground (arith, lookup-nil {V = Dict Word Bool} w, lookup-nil {V = Bool} name)
