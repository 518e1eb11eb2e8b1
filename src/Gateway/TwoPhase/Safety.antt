-- ===== src/Gateway/TwoPhase/Safety.antt =====
-- No money moves before the commit: the prepare phase and the abort leave every balance of every
-- bank alone, whatever becomes of the calls.
use distributed_systems_iiit.Common.{
  ◌≡◌, refl, inl, inr, ◌∙◌, String, Bool, true, false, arith, string_key,
}
use distributed_systems_iiit.Gateway.Transactions.{TwoPhaseTransactionRecord, preparing}
use distributed_systems_iiit.Gateway.Banking.{
  Result, ok, err, Delivery, Network, prepare_debit, prepare_credit, request,
}
use distributed_systems_iiit.Gateway.Banking.Money.{
  accounts, accounts-prepare_debit, accounts-prepare_credit, accounts-abort,
}
use distributed_systems_iiit.Gateway.Banking.Directory.{Result-cases}
use distributed_systems_iiit.Gateway.State.{Gateway, Environment}
use distributed_systems_iiit.Gateway.TwoPhase.{
  Ended, bank_for, abort_at, abort_client, abort_transaction, both, prepare_at, with_banks,
  prepare_phase, votes,
}

pub network-bank_for :
    (env : Environment) (c : String) (g : Gateway) → (bank_for env c g).0.network ≡ g.network
unfolding bank_for
network-bank_for env c g = refl

module _ (env : Environment) (b : String) where
  accounts-abort_client :
      (d : Delivery) (tx_id c : String) (g : Gateway)
      → accounts b (abort_client env d tx_id c g).network ≡ accounts b g.network
  unfolding abort_client abort_at
  accounts-abort_client d tx_id c g = go (bank_for env c g).1
    where
      go :
          (r : Result String)
          → accounts b (abort_at env d tx_id r (bank_for env c g).0).network ≡ accounts b g.network
      go (err e) = unfold bank_for in refl
      go (ok name) = unfold bank_for in accounts-abort d env.reason name tx_id g.network b

  accounts-abort_transaction :
      (tx : TwoPhaseTransactionRecord) (g : Gateway)
      → accounts b (abort_transaction env tx g).0.network ≡ accounts b g.network
  unfolding abort_transaction
  accounts-abort_transaction tx g =
      let g1 = abort_client env env.abort_sender tx.id tx.sender g in
      accounts-abort_client env.abort_receiver tx.id tx.receiver g1
      ∙ accounts-abort_client env.abort_sender tx.id tx.sender g

  accounts-both :
      (first : Bool) (s r : Network → Network × Result (Unit {0})) (net : Network)
      → ((n : Network) → accounts b (s n).0 ≡ accounts b n)
      → ((n : Network) → accounts b (r n).0 ≡ accounts b n)
      → accounts b (both first s r net).0 ≡ accounts b net
  unfolding both
  accounts-both true s r net hs hr = hr (s net).0 ∙ hs net
  accounts-both false s r net hs hr = hs (r net).0 ∙ hr net

  accounts-prepare_at :
      (sb rb : String) (tx : TwoPhaseTransactionRecord) (g : Gateway)
      → accounts b (prepare_at env sb rb tx g).gateway.network ≡ accounts b g.network
  unfolding prepare_at
  accounts-prepare_at sb rb tx g =
      let p = env.prepare in
      let s = prepare_debit p.sender env.reason sb (request tx.id tx.sender tx.amount) in
      let r = prepare_credit p.receiver env.reason rb (request tx.id tx.receiver tx.amount) in
      let (net, sv, rv) = both p.sender_first s r g.network in
      let g1 = record g { network = net } in
      let tx1 = record tx {
        state = preparing;
        prepare_votes = votes p.sender_first sb rb sv rv tx.prepare_votes;
      } in
      ground (
        arith,
        accounts-abort_transaction tx1 g1,
        accounts-both p.sender_first s r g.network
            (λ n.
              accounts-prepare_debit p.sender env.reason sb (request tx.id tx.sender tx.amount) n b)
            (λ n.
              accounts-prepare_credit p.receiver env.reason rb (request tx.id tx.receiver tx.amount)
                n b),
      )

  accounts-with_banks :
      (during : String)
      (phase : Environment → String → String → TwoPhaseTransactionRecord → Gateway → Ended)
      → ((sb rb : String) (tx : TwoPhaseTransactionRecord) (g : Gateway)
          → accounts b (phase env sb rb tx g).gateway.network ≡ accounts b g.network)
      → (tx : TwoPhaseTransactionRecord) (g : Gateway)
      → accounts b (with_banks env during phase tx g).gateway.network ≡ accounts b g.network
  unfolding with_banks
  accounts-with_banks during phase keep tx g =
      let (g1, s) = bank_for env tx.sender g in
      let (g2, r) = bank_for env tx.receiver g1 in
      let n1 = network-bank_for env tx.sender g in
      let n2 = network-bank_for env tx.receiver g1 in
      elim (Result-cases s) [
        | inl (e, p) ↦ ground (arith, p, n1, accounts-abort_transaction tx g1)
        | inr (sb, p) ↦ elim (Result-cases r) [
          | inl (e, q) ↦ ground (arith, p, q, n1, n2, accounts-abort_transaction tx g2)
          | inr (rb, q) ↦ ground (arith, p, q, n1, n2, keep sb rb tx g2)
        ]
      ]

  -- Whatever the environment does during the prepare phase, and however the phase ends, the
  -- balances at every bank are what they were.
  pub accounts-prepare_phase :
      (tx : TwoPhaseTransactionRecord) (g : Gateway)
      → accounts b (prepare_phase env tx g).gateway.network ≡ accounts b g.network
  unfolding prepare_phase
  accounts-prepare_phase = accounts-with_banks "" prepare_at accounts-prepare_at
