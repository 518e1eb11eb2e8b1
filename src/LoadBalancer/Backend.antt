-- ===== src/LoadBalancer/Backend.antt =====
-- The backend server of the load balancer (Assignment2/P1-LoadBalancer/server/main.go). A task is a list
-- of runes. What is read of a number, and its text, are arguments (`strconv.Atoi`, `%d`), and so is
-- the library's trimming of blanks.
use distributed_systems_iiit.Common.{
  ℕ, zero, suc, ◌+◌, ◌-◌, ◌%◌, String, ◌≡◌, ◌∙◌, refl, sym, ap, inl, inr, Bool, true, false, Option,
  none, some, List, [], ◌∷◌, ◌++◌, ◌==◌, ==_iff, nat_key, ltb, ◌&&◌, if◌then◌else◌, Bool-cases,
}
use distributed_systems_iiit.Common.Int.{ℤ, pos, negsuc}
use distributed_systems_iiit.Common.Lists.{All}
use distributed_systems_iiit.Common.Words.{Word}
use distributed_systems_iiit.LoadBalancer.{ServerLoad}

abbrev pub max_concurrent_tasks : ℕ
max_concurrent_tasks = 5

-- `fibonacci`, on 64-bit words; a number up to 1 is its own, and so is a negative one.
unfoldable pub fibonacci : ℕ → ℕ
fibonacci zero = 0
fibonacci (suc zero) = 1
fibonacci (suc (suc n)) = (fibonacci (suc n) + fibonacci n) % 18446744073709551616

abbrev pub colon : ℕ
colon = 58

abbrev cons_first : ℕ → List Word → List Word
cons_first c [] = (c ∷ []) ∷ []
cons_first c (w ∷ rest) = (c ∷ w) ∷ rest

-- `strings.Split` at one rune.
unfoldable pub split : ℕ → Word → List Word
split c [] = [] ∷ []
split c (x ∷ w) = let rest = split c w in if x == c then [] ∷ rest else cons_first x rest

-- `strings.Join`
unfoldable pub join : ℕ → List Word → Word
join c [] = []
join c (w ∷ []) = w
join c (w ∷ v ∷ rest) = w ++ (c ∷ join c (v ∷ rest))

abbrev pub has_prefix : Word → Word → Bool
has_prefix [] w = true
has_prefix (_ ∷ _) [] = false
has_prefix (c ∷ p) (d ∷ w) = (c == d) && has_prefix p w

-- "fibonacci"
abbrev pub fibonacci_name : Word
fibonacci_name = 102 ∷ 105 ∷ 98 ∷ 111 ∷ 110 ∷ 97 ∷ 99 ∷ 99 ∷ 105 ∷ []

-- "fibonacci:"
abbrev pub fibonacci_prefix : Word
fibonacci_prefix = 102 ∷ 105 ∷ 98 ∷ 111 ∷ 110 ∷ 97 ∷ 99 ∷ 99 ∷ 105 ∷ 58 ∷ []

pub data TaskResult : Type 0 where
  fibonacci_is : ℤ → ℤ → TaskResult
  invalid_number invalid_format unknown_task : TaskResult

-- A 64-bit word, read with its sign.
abbrev pub signed : ℕ → ℤ
signed w = if ltb w 9223372036854775808 then pos w else negsuc (18446744073709551615 - w)

-- The value for any number.
abbrev pub fibonacci_of : ℤ → ℤ
fibonacci_of (pos n) = signed (fibonacci n)
fibonacci_of (negsuc n) = negsuc n

module _ (trim_space : Word → Word) where
  -- The text without its part up to the first colon, if there is one.
  unfoldable pub cut_parts : Word → List Word → Word
  unfolding join
  cut_parts task (_ ∷ second ∷ rest) = trim_space (join colon (second ∷ rest))
  cut_parts task _ = task

  unfoldable pub cut_task : Word → Word
  unfolding split cut_parts
  cut_task task = cut_parts task (split colon task)

module _ (trim_space : Word → Word) (atoi : Word → Option ℤ) where
  unfoldable pub run_fibonacci : List Word → TaskResult
  run_fibonacci (_ ∷ number ∷ []) = elim (atoi (trim_space number)) [
    | none ↦ invalid_number
    | some n ↦ fibonacci_is n (fibonacci_of n)
  ]
  run_fibonacci _ = invalid_format

  unfoldable pub compute : Word → TaskResult
  unfolding cut_task run_fibonacci
  compute request =
      let task = cut_task trim_space request in
      if has_prefix fibonacci_prefix task then run_fibonacci (split colon task) else unknown_task

-- `backendServer` as its counter; a task that starts and one that ends.
abbrev pub BackendServer : Type 0
BackendServer = ℕ

abbrev pub start_task : BackendServer → BackendServer
start_task s = s + 1

abbrev pub end_task : BackendServer → BackendServer
end_task s = s - 1

-- What is reported: the load and whether the server is available.
abbrev pub load_report : String → BackendServer → ServerLoad
load_report address s = record {
  address = address;
  load = pos s;
  available = ltb s max_concurrent_tasks;
}

-- No rune of the text is the colon.
abbrev pub NoColon : Word → Type 0
NoColon w = All (λ c. (c == colon) ≡ false) w

split-NoColon : (w : Word) → NoColon w → split colon w ≡ (w ∷ [])
unfolding split
split-NoColon [] h = refl
split-NoColon (x ∷ w) h = rw (h.0, split-NoColon w h.1) refl

split-append : (p w : Word) → NoColon p → split colon (p ++ (colon ∷ w)) ≡ (p ∷ split colon w)
unfolding split
split-append [] w h = refl
split-append (x ∷ p) w h = rw (h.0, split-append p w h.1) refl

split_some : (w : Word) → (v : Word) × (rest : List Word) × (split colon w ≡ (v ∷ rest))
unfolding split
split_some [] = ([], [], refl)
split_some (x ∷ w) =
    let (v, rest, e) = split_some w in
    elim (Bool-cases (x == colon)) [
      | inl h ↦ ([], split colon w, rw h refl)
      | inr h ↦ (x ∷ v, rest, rw (h, e) refl)
    ]

join_cons :
    (x : ℕ) (v : Word) (rest : List Word)
    → join colon ((x ∷ v) ∷ rest) ≡ (x ∷ join colon (v ∷ rest))
unfolding join
join_cons x v [] = refl
join_cons x v (_ ∷ _) = refl

join-split : (w : Word) → join colon (split colon w) ≡ w
unfolding split join
join-split [] = refl
join-split (x ∷ w) =
    let (v, rest, e) = split_some w in
    let same : join colon (v ∷ rest) ≡ w = ap (join colon) (sym e) ∙ join-split w in
    elim (Bool-cases (x == colon)) [
      | inl h ↦
          rw (h, e)
            (ap (λ (l : Word). colon ∷ l) same ∙ ap (λ (c : ℕ). c ∷ w) (sym ((==_iff x colon).0 h)))
      | inr h ↦ rw (h, e) (join_cons x v rest ∙ ap (λ (l : Word). x ∷ l) same)
    ]

NoColon-name : NoColon fibonacci_name
NoColon-name = (refl, (refl, (refl, (refl, (refl, (refl, (refl, (refl, (refl, tt)))))))))

cut_task-append :
    (trim_space : Word → Word) (p w : Word)
    → NoColon p
    → cut_task trim_space (p ++ (colon ∷ w)) ≡ trim_space w
unfolding cut_task cut_parts
cut_task-append trim_space p w h =
    let (v, rest, e) = split_some w in
    rw (split-append p w h, e) (ap trim_space (ap (join colon) (sym e) ∙ join-split w))

-- A task with a prefix of its own, as the client sends it, is served: the number after the second
-- colon is read and its value computed, where neither the prefix nor the number has a colon.
pub compute_served :
    (trim_space : Word → Word) (atoi : Word → Option ℤ) (prefix blank number : Word) (n : ℤ)
    → NoColon prefix
    → NoColon number
    → trim_space (blank ++ (fibonacci_prefix ++ number)) ≡ fibonacci_prefix ++ number
    → atoi (trim_space number) ≡ some n
    → compute trim_space atoi (prefix ++ (colon ∷ (blank ++ (fibonacci_prefix ++ number))))
      ≡ fibonacci_is n (fibonacci_of n)
unfolding compute run_fibonacci
compute_served trim_space atoi prefix blank number n h d trimmed read =
    rw
      (
        cut_task-append trim_space prefix (blank ++ (fibonacci_prefix ++ number)) h,
        trimmed,
        split-NoColon number d,
        read,
      )
      refl
