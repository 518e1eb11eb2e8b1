-- ===== src/Byzantine/Decisions.antt =====
-- How a general decides, and the consensus that the server reports (`makeDecision` and
-- `GetConsensus`). The map's order is the order in which a commander with no message looks for a
-- lieutenant that has one.
use distributed_systems_iiit.Common.{
  ℕ, zero, suc, ◌+◌, Bool, true, false, Option, none, some, List, [], ◌∷◌, ◌==◌, nat_key, ltb,
  or_else, not, ◌&&◌, if◌then◌else◌,
}
use distributed_systems_iiit.Common.Dict.{Dict, lookup}
use distributed_systems_iiit.Byzantine.{
  Decision, attack, retreat, Role, commander, lieutenant, RoundMessages, General, ByzantineServer,
}

abbrev pub same : Decision → Decision → Bool
same attack attack = true
same retreat retreat = true
same _ _ = false

unfoldable pub count : Decision → List Decision → ℕ
count d [] = 0
count d (v ∷ rest) = let n = count d rest in if same v d then n + 1 else n

unfoldable pub count_senders : Decision → RoundMessages → ℕ
unfolding count
count_senders d [] = 0
count_senders d ((_, values) ∷ rest) = count d values + count_senders d rest

-- The values of `left` rounds from `round` on.
unfoldable pub count_rounds : Decision → ℕ → ℕ → Dict ℕ RoundMessages → ℕ
unfolding count_senders
count_rounds d zero round messages = 0
count_rounds d (suc left) round messages =
    count_senders d (or_else [] (lookup round messages)) + count_rounds d left (round + 1) messages

abbrev pub is_lieutenant : Role → Bool
is_lieutenant lieutenant = true
is_lieutenant commander = false

abbrev first : List Decision → Option Decision
first [] = none
first (d ∷ _) = some d

-- The first message that a lieutenant has from the commander in round 1.
unfoldable pub infer_order : ℕ → Dict ℕ General → Option Decision
infer_order commander_id [] = none
infer_order commander_id ((id, g) ∷ rest) =
    let later = infer_order commander_id rest in
    if not (id == commander_id) && is_lieutenant g.role
    then elim (first (or_else [] (lookup commander_id (or_else [] (lookup 1 g.messages))))) [
      | some d ↦ some d
      | none ↦ later
    ]
    else later

unfoldable pub majority : ℕ → ℕ → Decision
majority attacks retreats =
    if ltb retreats attacks then attack else (if ltb attacks retreats then retreat else retreat)

-- The decision of a loyal general.
unfoldable pub loyal_decision : General → ByzantineServer → Decision
loyal_decision g s =
    let attacks = count_rounds attack s.max_rounds 1 g.messages in
    let retreats = count_rounds retreat s.max_rounds 1 g.messages in
    elim g.role [
      | lieutenant ↦ majority attacks retreats
      | commander ↦
          if (attacks == 0) && (retreats == 0)
          then or_else (majority attacks retreats) (infer_order g.id s.generals)
          else majority attacks retreats
    ]

-- `coin` is `rand.Float32() < 0.5`.
unfoldable pub make_decision : Bool → General → ByzantineServer → Decision
unfolding loyal_decision
make_decision coin g s =
    if g.is_traitor then (if coin then attack else retreat) else loyal_decision g s

pub record VoteCounts : Type 0 where
  pub attacks : ℕ
  pub retreats : ℕ
  pub loyal_attacks : ℕ
  pub loyal_retreats : ℕ

-- One vote, added to the counts.
unfoldable pub add_vote : Bool → Decision → VoteCounts → VoteCounts
add_vote is_traitor attack c = record c {
  attacks = c.attacks + 1;
  loyal_attacks = if is_traitor then c.loyal_attacks else c.loyal_attacks + 1;
}
add_vote is_traitor retreat c = record c {
  retreats = c.retreats + 1;
  loyal_retreats = if is_traitor then c.loyal_retreats else c.loyal_retreats + 1;
}

-- The count over all generals; each traitor tosses a coin of its own.
unfoldable pub tally : (ℕ → Bool) → ByzantineServer → Dict ℕ General → VoteCounts
unfolding add_vote
tally coins s [] = record { attacks = 0; retreats = 0; loyal_attacks = 0; loyal_retreats = 0 }
tally coins s ((id, g) ∷ rest) =
    add_vote g.is_traitor (make_decision (coins id) g s) (tally coins s rest)

-- The last loop: a traitor is passed over, so no coin matters.
unfoldable pub all_loyal_agree : Decision → ByzantineServer → Dict ℕ General → Bool
all_loyal_agree d s [] = true
all_loyal_agree d s ((_, g) ∷ rest) =
    let others = all_loyal_agree d s rest in
    if not g.is_traitor && not (same (make_decision false g s) d) then false else others

pub record ConsensusResponse : Type 0 where
  pub decision : Decision
  pub consensus_reached : Bool
  pub vote_counts : Option VoteCounts

unfoldable pub get_consensus : Bool → (ℕ → Bool) → ℕ → ByzantineServer → ConsensusResponse
get_consensus coin coins general_id s = elim (lookup general_id s.generals) [
  | none ↦ record { decision = retreat; consensus_reached = false; vote_counts = none }
  | some general ↦
      let counts = tally coins s s.generals in
      record {
        decision = make_decision coin general s;
        consensus_reached =
            all_loyal_agree (majority counts.loyal_attacks counts.loyal_retreats) s s.generals;
        vote_counts = some counts;
      }
]
