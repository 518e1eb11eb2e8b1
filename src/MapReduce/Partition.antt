-- ===== src/MapReduce/Partition.antt =====
-- The intermediate files of a map task: every word with a bucket is in the file of its bucket.
use distributed_systems_iiit.Common.{
  ℕ, zero, suc, ◌+◌, ◌<◌, ◌≡◌, ◌∙◌, refl, sym, ap, inl, inr, Bool, Option, none, some, List, [],
  ◌∷◌, ◌++◌, ◌==◌, ==_iff, nat_key, arith, leb, ltb, ◌&&◌, if◌then◌else◌, Option-cases, Bool-cases,
  false,
}
use mathlib.Core.List.{append_assoc, append-nil}
use distributed_systems_iiit.Common.Words.{Word}
use distributed_systems_iiit.Common.Dict.{lookup, insert, lookup-insert}
use distributed_systems_iiit.MapReduce.{
  bucket, Line, Files, create_files, write_word, write_words, map_values,
}

-- Every task's input, mapped over the files that were there before.
abbrev pub each_mapped :
    {A V : Type 0} → (A → Files V → Files V) → List (A × Files V) → List (Files V)
each_mapped map_task [] = []
each_mapped map_task ((input, old) ∷ rest) = map_task input old ∷ each_mapped map_task rest

-- The test `bucket … == r` of the file of a word.
abbrev pub goes_to : ℕ → Option ℕ → Bool
goes_to r none = false
goes_to r (some i) = i == r

module _ {V : Type 0} where
  -- The lines of the file of a reducer, in the order of the words.
  unfoldable pub lines_for : ℕ → ℕ → V → List Word → List (Line V)
  lines_for n r value [] = []
  lines_for n r value (w ∷ rest) =
      let others = lines_for n r value rest in
      if goes_to r (bucket n w) then (w, value) ∷ others else others

  module _ (r : ℕ) where
    -- What is there at `r` after the creation: an empty file if it is one of those that are created.
    lookup-create_files :
        (left i : ℕ) (files : Files V)
        → lookup r (create_files left i files)
          ≡ (if leb i r && ltb r (i + left) then some [] else lookup r files)
    unfolding create_files
    lookup-create_files zero i files = ground arith
    lookup-create_files (suc left) i files =
        rw (lookup-create_files left (i + 1) (insert i [] files))
          (grind (arith, lookup-insert, ==_iff i r))

    -- A write adds a line to the file at `r`, if the word goes there.
    lookup-write_word :
        (b : Option ℕ) (line : Line V) (files : Files V) (lines : List (Line V))
        → lookup r files ≡ some lines
        → lookup r (write_word b line files)
          ≡ some (if goes_to r b then lines ++ (line ∷ []) else lines)
    unfolding write_word
    lookup-write_word none line files lines h = ground arith
    lookup-write_word (some i) line files lines h = elim (Option-cases (lookup i files)) [
      | inl e ↦ ground (arith, ==_iff i r)
      | inr (old, e) ↦ grind (arith, lookup-insert, ==_iff i r)
    ]

  lookup-write_words :
      (n r : ℕ) (value : V) (words : List Word) (files : Files V) (lines : List (Line V))
      → lookup r files ≡ some lines
      → lookup r (write_words n value words files) ≡ some (lines ++ lines_for n r value words)
  unfolding write_words lines_for
  lookup-write_words n r value [] files lines h = h ∙ ap some (sym (append-nil lines))
  lookup-write_words n r value (w ∷ rest) files lines h =
      let written = lookup-write_word r (bucket n w) (w, value) files lines h in
      elim (Bool-cases (goes_to r (bucket n w))) [
        | inl e ↦
            lookup-write_words n r value rest _ (lines ++ ((w, value) ∷ [])) (written ∙ rw e refl)
            ∙ rw e (ap some (append_assoc lines ((w, value) ∷ []) (lines_for n r value rest)))
        | inr e ↦ lookup-write_words n r value rest _ lines (written ∙ rw e refl) ∙ rw e refl
      ]

  -- The file of a reducer holds the words of its bucket in their order, whatever was there before.
  pub lookup-map_values :
      (n r : ℕ) (value : V) (words : List Word) (old : Files V)
      → r < n
      → lookup r (map_values n value words old) ≡ some (lines_for n r value words)
  unfolding map_values
  lookup-map_values n r value words old small =
      lookup-write_words n r value words (create_files n 0 old) []
        (lookup-create_files r n 0 old ∙ ground arith)
