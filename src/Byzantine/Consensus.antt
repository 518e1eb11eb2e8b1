-- ===== src/Byzantine/Consensus.antt =====
-- When the server reports a consensus.
use distributed_systems_iiit.Common.{
  ℕ, ◌≡◌, ◌↔◌, ◌⊎◌, refl, inl, inr, Bool, true, false, some, [], ◌∷◌, ◌==◌, ==_iff, ==_refl,
  nat_key, arith, Bool-cases,
}
use distributed_systems_iiit.Common.Dict.{Dict, lookup, IsMap}
use distributed_systems_iiit.Byzantine.{Decision, attack, retreat, General, ByzantineServer}
use distributed_systems_iiit.Byzantine.Decisions.{
  same, make_decision, loyal_decision, tally, all_loyal_agree, majority, get_consensus,
}

-- Every loyal general of the list decides on `d`.
abbrev pub AllDecide : Decision → ByzantineServer → Dict ℕ General → Type 0
AllDecide d s generals =
    (id : ℕ) (g : General)
    → lookup id generals ≡ some g
    → g.is_traitor ≡ false
    → loyal_decision g s ≡ d

-- The loyal generals agree on a decision.
abbrev pub Agreed : ByzantineServer → Type 0
Agreed s = (d : Decision) × AllDecide d s s.generals

same_iff : (a b : Decision) → (same a b ≡ true) ↔ (a ≡ b)
same_iff attack attack = ((λ _. refl), λ _. refl)
same_iff attack retreat = ((λ h. absurd (cc h)), λ h. absurd (cc h))
same_iff retreat attack = ((λ h. absurd (cc h)), λ h. absurd (cc h))
same_iff retreat retreat = ((λ _. refl), λ _. refl)

Decision-cases : (d : Decision) → (d ≡ attack) ⊎ (d ≡ retreat)
Decision-cases attack = inl refl
Decision-cases retreat = inr refl

make_decision_loyal :
    (coin : Bool) (g : General) (s : ByzantineServer)
    → g.is_traitor ≡ false
    → make_decision coin g s ≡ loyal_decision g s
unfolding make_decision
make_decision_loyal coin g s h = rw h refl

module _ (s : ByzantineServer) (d : Decision) where
  all_loyal_agree-AllDecide :
      (generals : Dict ℕ General) → all_loyal_agree d s generals ≡ true → AllDecide d s generals
  unfolding all_loyal_agree lookup
  all_loyal_agree-AllDecide [] h id g found loyal = cc found
  all_loyal_agree-AllDecide ((j, g') ∷ rest) h id g found loyal = elim (Bool-cases (j == id)) [
    | inl e ↦ ground (arith, same_iff (make_decision false g' s) d, make_decision_loyal false g' s)
    | inr e ↦ all_loyal_agree-AllDecide rest (ground arith) id g (ground arith) loyal
  ]

  AllDecide-all_loyal_agree :
      (generals : Dict ℕ General)
      → IsMap generals
      → AllDecide d s generals
      → all_loyal_agree d s generals ≡ true
  unfolding all_loyal_agree lookup
  AllDecide-all_loyal_agree [] m h = refl
  AllDecide-all_loyal_agree ((j, g') ∷ rest) m h = ground (
    arith,
    AllDecide-all_loyal_agree rest m.1
        (λ id g found. h id g (ground (arith, m.0, ==_iff j id, found))),
    h j g' (ground (arith, ==_refl j)),
    same_iff (make_decision false g' s) d,
    make_decision_loyal false g' s,
  )

  no_loyal_votes :
      (coins : ℕ → Bool) (generals : Dict ℕ General)
      → (tally coins s generals).loyal_attacks ≡ 0
      → (tally coins s generals).loyal_retreats ≡ 0
      → all_loyal_agree d s generals ≡ true
  unfolding tally all_loyal_agree
  no_loyal_votes coins [] p q = refl
  no_loyal_votes coins ((j, g) ∷ rest) p q = elim (Decision-cases (make_decision (coins j) g s)) [
    | inl e ↦ ground (arith, no_loyal_votes coins rest)
    | inr e ↦ ground (arith, no_loyal_votes coins rest)
  ]

module _ (s : ByzantineServer) (coins : ℕ → Bool) where
  no_retreats :
      (generals : Dict ℕ General)
      → all_loyal_agree attack s generals ≡ true
      → (tally coins s generals).loyal_retreats ≡ 0
  unfolding tally all_loyal_agree
  no_retreats [] h = refl
  no_retreats ((j, g) ∷ rest) h = elim (Decision-cases (make_decision (coins j) g s)) [
    | inl e ↦ ground (arith, no_retreats rest)
    | inr e ↦
        ground (
          arith,
          no_retreats rest,
          make_decision_loyal (coins j) g s,
          make_decision_loyal false g s,
        )
  ]

  no_attacks :
      (generals : Dict ℕ General)
      → all_loyal_agree retreat s generals ≡ true
      → (tally coins s generals).loyal_attacks ≡ 0
  unfolding tally all_loyal_agree
  no_attacks [] h = refl
  no_attacks ((j, g) ∷ rest) h = elim (Decision-cases (make_decision (coins j) g s)) [
    | inl e ↦
        ground
          (arith, no_attacks rest, make_decision_loyal (coins j) g s, make_decision_loyal false g s)
    | inr e ↦ ground (arith, no_attacks rest)
  ]

majority_attack : (a r : ℕ) → r ≡ 0 → (a ≡ 0) ⊎ (majority a r ≡ attack)
unfolding majority
majority_attack a r h = ground arith

majority_retreat : (a r : ℕ) → a ≡ 0 → majority a r ≡ retreat
unfolding majority
majority_retreat a r h = ground arith

agreement_reported :
    (d : Decision) (s : ByzantineServer) (coins : ℕ → Bool)
    → all_loyal_agree d s s.generals ≡ true
    → let c = tally coins s s.generals in
      all_loyal_agree (majority c.loyal_attacks c.loyal_retreats) s s.generals ≡ true
agreement_reported attack s coins h =
    let c = tally coins s s.generals in
    let none_retreats = no_retreats s coins s.generals h in
    elim (majority_attack c.loyal_attacks c.loyal_retreats none_retreats) [
      | inl e ↦
          no_loyal_votes s (majority c.loyal_attacks c.loyal_retreats) coins s.generals e
            none_retreats
      | inr e ↦ rw e h
    ]
agreement_reported retreat s coins h =
    let c = tally coins s s.generals in
    rw (majority_retreat c.loyal_attacks c.loyal_retreats (no_attacks s coins s.generals h)) h

-- For a registered general the server reports a consensus exactly when there is a decision that
-- every loyal general makes, however the traitors' coins fall; each id is registered once.
pub get_consensus-Agreed :
    (coin : Bool) (coins : ℕ → Bool) (id : ℕ) (g : General) (s : ByzantineServer)
    → IsMap s.generals
    → lookup id s.generals ≡ some g
    → ((get_consensus coin coins id s).consensus_reached ≡ true) ↔ Agreed s
unfolding get_consensus
get_consensus-Agreed coin coins id g s m found =
    let c = tally coins s s.generals in
    let d = majority c.loyal_attacks c.loyal_retreats in
    (
      λ h. (d, all_loyal_agree-AllDecide s d s.generals (ground arith)),
      λ w. ground (
        arith,
        agreement_reported w.0 s coins (AllDecide-all_loyal_agree s w.0 s.generals m w.1),
      ),
    )
