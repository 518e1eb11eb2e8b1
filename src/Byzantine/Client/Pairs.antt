-- ===== src/Byzantine/Client/Pairs.antt =====
-- How many messages a phase has for a general.
use mathlib.Core.List.{Permᴰ}
use distributed_systems_iiit.Common.{
  ℕ, zero, suc, ◌+◌, ◌-◌, ◌≤◌, ◌<◌, ◌≡◌, ◌∙◌, refl, sym, ap, subst, inl, inr, Bool, false, List, [],
  ◌∷◌, ◌++◌, ◌==◌, ==_iff, nat_key, arith, ltb, leb, not, ◌&&◌, ◌||◌, if◌then◌else◌, Bool-cases,
}
use distributed_systems_iiit.Common.Lists.{All, All-append}
use distributed_systems_iiit.Byzantine.Client.{range, pairs_from, all_pairs, count_traitors}
use distributed_systems_iiit.Byzantine.Client.Phases.{count_if, from_loyal, from_traitor, Valid}
use distributed_systems_iiit.Byzantine.Client.Orders.{kept_by}

module _ (test : ℕ × ℕ → Bool) where
  count_if-append :
      (l l' : List (ℕ × ℕ)) → count_if test (l ++ l') ≡ count_if test l + count_if test l'
  unfolding count_if
  count_if-append [] l' = omega arith
  count_if-append (m ∷ l) l' = ground (arith, count_if-append l l')

  count_if-Permᴰ : {l l' : List (ℕ × ℕ)} → Permᴰ l l' → count_if test l ≡ count_if test l'
  unfolding count_if
  count_if-Permᴰ Permᴰ.nil = refl
  count_if-Permᴰ (Permᴰ.cons e p) = ground (arith, ap test e, count_if-Permᴰ p)
  count_if-Permᴰ (Permᴰ.swap e f) = ground (arith, ap test e, ap test f)
  count_if-Permᴰ (Permᴰ.trans p q) = count_if-Permᴰ p ∙ count_if-Permᴰ q

-- Every order of the messages has the same counts and the same members.
All-Permᴰ : (P : ℕ × ℕ → Type 0) → {l l' : List (ℕ × ℕ)} → Permᴰ l l' → All P l' → All P l
All-Permᴰ P Permᴰ.nil h = h
All-Permᴰ P (Permᴰ.cons e p) h = (subst P (sym e) h.0, All-Permᴰ P p h.1)
All-Permᴰ P (Permᴰ.swap e f) h = (subst P (sym e) h.1.0, (subst P (sym f) h.0, h.1.1))
All-Permᴰ P (Permᴰ.trans p q) h = All-Permᴰ P p (All-Permᴰ P q h)

within : ℕ → ℕ → ℕ → Bool
within k start left = leb start k && ltb k (start + left)

module _ (traitor : ℕ → Bool) (k : ℕ) where
  from_loyal-pairs_from :
      (i start left : ℕ)
      → count_if (from_loyal traitor k) (pairs_from i (range start left))
        ≡ (if (within k start left && not (i == k)) && not (traitor i) then 1 else 0)
  unfolding count_if pairs_from range within
  from_loyal-pairs_from i start zero = ground arith
  from_loyal-pairs_from i start (suc left) =
      ground (
        arith,
        from_loyal-pairs_from i (start + 1) left,
        ==_iff i start,
        ==_iff start k,
        ==_iff i k,
      )

  from_traitor-pairs_from :
      (i start left : ℕ)
      → count_if (from_traitor traitor k) (pairs_from i (range start left))
        ≡ (if (within k start left && not (i == k)) && traitor i then 1 else 0)
  unfolding count_if pairs_from range within
  from_traitor-pairs_from i start zero = ground arith
  from_traitor-pairs_from i start (suc left) = ground (
    arith,
    from_traitor-pairs_from i (start + 1) left,
    ==_iff i start,
    ==_iff start k,
    ==_iff i k,
  )

  kept_by-pairs_from :
      (start left : ℕ)
      → 1 ≤ start
      → (if (0 == k) && leb 1 left || within k start left then 1 else 0)
        ≤ count_if (kept_by false k) (pairs_from 0 (range start left))
  unfolding count_if pairs_from range within
  kept_by-pairs_from start zero h = ground arith
  kept_by-pairs_from start (suc left) h = ground (
    arith,
    kept_by-pairs_from (start + 1) left (omega (arith, h)),
    ==_iff 0 start,
    ==_iff start k,
    ==_iff 0 k,
  )

  no_traitor : (i : ℕ) → traitor k ≡ false → ((i == k) && traitor i) ≡ false
  no_traitor i loyal = elim (Bool-cases (i == k)) [
    | inl e ↦ rw e (ap traitor ((==_iff i k).0 e) ∙ loyal)
    | inr e ↦ rw e refl
  ]

  -- A loyal general gets a message from every traitor, and one from every other loyal general.
  from_traitor-all_pairs :
      (start left n : ℕ)
      → k < n
      → traitor k ≡ false
      → count_if (from_traitor traitor k) (all_pairs (range start left) (range 0 n))
        ≡ count_traitors traitor (range start left)
  unfolding all_pairs range count_traitors count_if within
  from_traitor-all_pairs start zero n h loyal = refl
  from_traitor-all_pairs start (suc left) n h loyal =
      let pairs = pairs_from start (range 0 n) in
      let rest = all_pairs (range (start + 1) left) (range 0 n) in
      ground (
        arith,
        count_if-append (from_traitor traitor k) pairs rest,
        from_traitor-pairs_from start 0 n,
        from_traitor-all_pairs (start + 1) left n h loyal,
        no_traitor start loyal,
        ==_iff start k,
      )

  from_loyal-all_pairs :
      (start left n : ℕ)
      → k < n
      → traitor k ≡ false
      → count_if (from_loyal traitor k) (all_pairs (range start left) (range 0 n))
          + count_traitors traitor (range start left)
          + (if within k start left then 1 else 0)
        ≡ left
  unfolding all_pairs range count_traitors count_if within
  from_loyal-all_pairs start zero n h loyal = ground arith
  from_loyal-all_pairs start (suc left) n h loyal =
      let pairs = pairs_from start (range 0 n) in
      let rest = all_pairs (range (start + 1) left) (range 0 n) in
      ground (
        arith,
        count_if-append (from_loyal traitor k) pairs rest,
        from_loyal-pairs_from start 0 n,
        from_loyal-all_pairs (start + 1) left n h loyal,
        no_traitor start loyal,
        ==_iff start k,
      )

module _ (n : ℕ) where
  Valid-pairs_from :
      (i start left : ℕ)
      → i < n
      → start + left ≤ n
      → All (Valid n) (pairs_from i (range start left))
  unfolding pairs_from range
  Valid-pairs_from i start zero b h = tt
  Valid-pairs_from i start (suc left) b h =
      let rest = Valid-pairs_from i (start + 1) left b (omega (arith, h)) in
      elim (Bool-cases (i == start)) [
        | inl e ↦ rw (e, pairs_from) rest
        | inr e ↦ rw (e, pairs_from) ((b, omega (arith, h), ground (arith, ==_iff i start)), rest)
      ]

  Valid-all_pairs :
      (start left : ℕ) → start + left ≤ n → All (Valid n) (all_pairs (range start left) (range 0 n))
  unfolding all_pairs range
  Valid-all_pairs start zero h = tt
  Valid-all_pairs start (suc left) h =
      All-append (Valid n) (pairs_from start (range 0 n)) _
        (Valid-pairs_from start 0 n (omega (arith, h)) (omega arith))
        (Valid-all_pairs (start + 1) left (omega (arith, h)))

senders_of-pairs_from : (i start left : ℕ) → All (λ m. m.0 ≡ i) (pairs_from i (range start left))
unfolding pairs_from range
senders_of-pairs_from i start zero = tt
senders_of-pairs_from i start (suc left) = elim (Bool-cases (i == start)) [
  | inl e ↦ rw (e, pairs_from) (senders_of-pairs_from i (start + 1) left)
  | inr e ↦ rw (e, pairs_from) (refl, senders_of-pairs_from i (start + 1) left)
]

-- What a phase is, in whatever order its messages are served: they can be sent, and a loyal general
-- gets one from every traitor and one from every other loyal general.
pub record IsRound (n : ℕ) (traitor : ℕ → Bool) (l : List (ℕ × ℕ)) : Type 0 where
  pub valid : All (Valid n) l
  pub traitors :
      (k : ℕ)
      → k < n
      → traitor k ≡ false
      → count_if (from_traitor traitor k) l ≡ count_traitors traitor (range 0 n)
  pub loyals :
      (k : ℕ)
      → k < n
      → traitor k ≡ false
      → count_if (from_loyal traitor k) l + count_traitors traitor (range 0 n) + 1 ≡ n

pub Permᴰ-IsRound :
    (n : ℕ) (traitor : ℕ → Bool) (l : List (ℕ × ℕ))
    → Permᴰ l (all_pairs (range 0 n) (range 0 n))
    → IsRound n traitor l
unfolding within
Permᴰ-IsRound n traitor l p = record {
  valid = All-Permᴰ (Valid n) p (Valid-all_pairs n 0 n (omega arith));
  traitors = λ k b loyal.
      count_if-Permᴰ (from_traitor traitor k) p ∙ from_traitor-all_pairs traitor k 0 n n b loyal;
  loyals = λ k b loyal. ground (
    arith,
    count_if-Permᴰ (from_loyal traitor k) p,
    from_loyal-all_pairs traitor k 0 n n b loyal,
  );
}

-- The orders of the first phase: each general gets or keeps one from a loyal commander, and gets at
-- most one from a traitor.
pub record IsFirstPhase (n : ℕ) (traitor : ℕ → Bool) (l : List (ℕ × ℕ)) : Type 0 where
  pub valid : All (Valid n) l
  pub from_commander : All (λ m. m.0 ≡ 0) l
  pub kept : (k : ℕ) → k < n → traitor 0 ≡ false → 1 ≤ count_if (kept_by (traitor 0) k) l
  pub lied : (k : ℕ) → count_if (from_traitor traitor k) l ≤ (if traitor 0 then 1 else 0)

pub Permᴰ-IsFirstPhase :
    (n : ℕ) (traitor : ℕ → Bool) (l : List (ℕ × ℕ))
    → 2 ≤ n
    → Permᴰ l (pairs_from 0 (range 1 (n - 1)))
    → IsFirstPhase n traitor l
unfolding within
Permᴰ-IsFirstPhase n traitor l two p = record {
  valid =
      All-Permᴰ (Valid n) p
        (Valid-pairs_from n 0 1 (n - 1) (omega (arith, two)) (omega (arith, two)));
  from_commander = All-Permᴰ (λ m. m.0 ≡ 0) p (senders_of-pairs_from 0 1 (n - 1));
  kept = λ k b e. rw e (
      ground (
        arith,
        count_if-Permᴰ (kept_by false k) p,
        kept_by-pairs_from (λ _. false) k 1 (n - 1) (omega arith),
        ==_iff 0 k,
      ));
  lied = λ k. ground (
    arith,
    count_if-Permᴰ (from_traitor traitor k) p,
    from_traitor-pairs_from traitor k 0 1 (n - 1),
  );
}
