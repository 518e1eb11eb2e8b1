-- ===== src/MapReduce/Loop.antt =====
-- The loop of a reducer over the files of the map tasks (`reduceWordCount` and `reduceInvertedIndex` of
-- Assignment2/P2-MapReduce/server/main.go), which has no bound of its own: it asks for one file after
-- another until one is not there.
use distributed_systems_iiit.Common.{
  ℕ, zero, suc, ◌+◌, ◌<◌, ◌≡◌, ◌∙◌, refl, ap, inl, inr, Option, none, some, List, [], ◌∷◌, arith,
  nat_key, Option-cases,
}
use distributed_systems_iiit.Common.Lists.{length, get_elem?}
use distributed_systems_iiit.Common.Words.{Word}
use distributed_systems_iiit.Common.Dict.{Dict, lookup}
use distributed_systems_iiit.MapReduce.{
  Line, Files, add_lines, read_tasks, reduce_word_count, InvertedIndex, add_index_lines,
  read_index_tasks, reduce_inverted_index,
}

-- The files of one reducer by the number of the map task.
abbrev pub Disk : Type 0 → Type 0
Disk V = ℕ → Option (List (Line V))

module _ {V R : Type 0} (add : List (Line V) → R → R) where
  -- The loop from one number on; `none` where the rounds are used up.
  unfoldable pub read_from : ℕ → Disk V → ℕ → R → Option R
  read_from zero disk map_task_id result = none
  read_from (suc rounds) disk map_task_id result = elim (disk map_task_id) [
    | none ↦ some result
    | some lines ↦ read_from rounds disk (map_task_id + 1) (add lines result)
  ]

abbrev file_in : {V : Type 0} → ℕ → Option (Files V) → Option (List (Line V))
file_in reducer none = none
file_in reducer (some files) = lookup reducer files

-- What the map tasks leave, each in its files.
abbrev pub disk_of : {V : Type 0} → ℕ → List (Files V) → Disk V
disk_of reducer tasks map_task_id = file_in reducer (get_elem? tasks map_task_id)

module _ {V R : Type 0} (add : List (Line V) → R → R) (reducer : ℕ) where
  -- The same loop over the list of the map tasks.
  read_list : List (Files V) → R → R
  read_list [] result = result
  read_list (files ∷ rest) result = elim (lookup reducer files) [
    | none ↦ result
    | some lines ↦ read_list rest (add lines result)
  ]

  read_from-read_list :
      (rounds : ℕ) (disk : Disk V) (tasks : List (Files V)) (id : ℕ) (result : R)
      → length tasks < rounds
      → ((i : ℕ) → disk (id + i) ≡ disk_of reducer tasks i)
      → read_from add rounds disk id result ≡ some (read_list tasks result)
  unfolding read_from read_list
  read_from-read_list zero disk tasks id result h same = absurd (omega (arith, h))
  read_from-read_list (suc rounds) disk [] id result h same =
      let missing : disk id ≡ none = ap disk (omega arith) ∙ same 0 in rw (missing, read_from) refl
  read_from-read_list (suc rounds) disk (files ∷ rest) id result h same =
      let found : disk id ≡ lookup reducer files = ap disk (omega arith) ∙ same 0 in
      elim (Option-cases (lookup reducer files)) [
        | inl e ↦ rw (found, e, read_from, read_list) refl
        | inr (lines, e) ↦
            rw (found, e, read_from, read_list)
              (read_from-read_list rounds disk rest (id + 1) (add lines result) (omega (arith, h))
                (λ i. ap disk (omega arith) ∙ same (suc i)))
      ]

read_list-read_tasks :
    (reducer : ℕ) (tasks : List (Files ℕ)) (counts : Dict Word ℕ)
    → read_list add_lines reducer tasks counts ≡ read_tasks reducer tasks counts
unfolding read_list read_tasks
read_list-read_tasks reducer [] counts = refl
read_list-read_tasks reducer (files ∷ rest) counts = elim (Option-cases (lookup reducer files)) [
  | inl e ↦ rw (e, read_list, read_tasks) refl
  | inr (lines, e) ↦
      rw (e, read_list, read_tasks) (read_list-read_tasks reducer rest (add_lines lines counts))
]

read_list-read_index_tasks :
    (reducer : ℕ) (tasks : List (Files Word)) (index : InvertedIndex)
    → read_list add_index_lines reducer tasks index ≡ read_index_tasks reducer tasks index
unfolding read_list read_index_tasks
read_list-read_index_tasks reducer [] index = refl
read_list-read_index_tasks reducer (files ∷ rest) index =
    elim (Option-cases (lookup reducer files)) [
      | inl e ↦ rw (e, read_list, read_index_tasks) refl
      | inr (lines, e) ↦
          rw (e, read_list, read_index_tasks)
            (read_list-read_index_tasks reducer rest (add_index_lines lines index))
    ]

-- In either mode the loop ends when it has come to the end of the map tasks, or before, with the
-- result of the reducer over the list of what they leave; more rounds change nothing.
pub read_from_ends :
    (reducer rounds rounds' : ℕ) (counted : List (Files ℕ)) (indexed : List (Files Word))
    → length counted < rounds
    → length indexed < rounds'
    → (read_from add_lines rounds (disk_of reducer counted) 0 []
        ≡ some (reduce_word_count reducer counted))
      × (read_from add_index_lines rounds' (disk_of reducer indexed) 0 []
          ≡ some (reduce_inverted_index reducer indexed))
unfolding reduce_word_count reduce_inverted_index
read_from_ends reducer rounds rounds' counted indexed h h' = (
  read_from-read_list add_lines reducer rounds (disk_of reducer counted) counted 0 [] h
        (λ i. ap (disk_of reducer counted) (omega arith))
      ∙ ap some (read_list-read_tasks reducer counted []),
  read_from-read_list add_index_lines reducer rounds' (disk_of reducer indexed) indexed 0 [] h'
        (λ i. ap (disk_of reducer indexed) (omega arith))
      ∙ ap some (read_list-read_index_tasks reducer indexed []),
)
