-- ===== src/Gateway/TwoPhase/Transfer.antt =====
-- What a two-phase payment that succeeds has done.
use distributed_systems_iiit.Common.{
  ◌≡◌, ◌≢◌, refl, sym, ◌∙◌, ap, inl, inr, String, true, some, arith, string_key, or_else,
}
use distributed_systems_iiit.Common.Int.{ℤ, pos}
use distributed_systems_iiit.Common.Dict.{Dict, lookup}
use distributed_systems_iiit.Gateway.Transactions.{TwoPhaseTransactionRecord, committed}
use distributed_systems_iiit.Gateway.Banking.{ok, Network, BankService}
use distributed_systems_iiit.Gateway.Banking.Directory.{
  Result-cases, bank_name_of, bank_name_of-get_bank_for_client, get_bank_for_client_found,
}
use distributed_systems_iiit.Gateway.Banking.Money.{money}
use distributed_systems_iiit.Gateway.State.{Gateway, Environment}
use distributed_systems_iiit.Gateway.TwoPhase.{
  Ended, bank_for, with_banks, prepare_at, prepare_phase, commit_at, commit_phase,
  run_two_phase_commit,
}
use distributed_systems_iiit.Gateway.TwoPhase.Safety.{network-bank_for, accounts-prepare_phase}
use distributed_systems_iiit.Gateway.TwoPhase.Commit.{transferred, commit_at_agreed, both_settled}

-- A phase that succeeded knew both banks.
record Started (env : Environment)
    (phase : Environment → String → String → TwoPhaseTransactionRecord → Gateway → Ended)
    (tx : TwoPhaseTransactionRecord) (g : Gateway) (e : Ended) : Type 0 where
  sender_bank : String
  receiver_bank : String
  at : Gateway
  sender_known : bank_name_of tx.sender g.banking ≡ some sender_bank
  receiver_known : bank_name_of tx.receiver g.banking ≡ some receiver_bank
  same_network : at.network ≡ g.network
  same_directory : (c : String) → bank_name_of c at.banking ≡ bank_name_of c g.banking
  same_way : at.uses_two_phase ≡ g.uses_two_phase
  ended : e ≡ phase env sender_bank receiver_bank tx at

same_way-bank_for :
    (env : Environment) (c : String) (g : Gateway)
    → (bank_for env c g).0.uses_two_phase ≡ g.uses_two_phase
unfolding bank_for
same_way-bank_for env c g = refl

module _ (env : Environment) where
  directory-bank_for :
      (c j : String) (g : Gateway)
      → bank_name_of j (bank_for env c g).0.banking ≡ bank_name_of j g.banking
  unfolding bank_for
  directory-bank_for c j g = bank_name_of-get_bank_for_client env.dials env.reason c g.banking j

  bank_for_found :
      (c name : String) (g : Gateway)
      → (bank_for env c g).1 ≡ ok name
      → bank_name_of c g.banking ≡ some name
  unfolding bank_for
  bank_for_found c name g = get_bank_for_client_found env.dials env.reason c g.banking name

  with_banks-Started :
      (during : String)
      (phase : Environment → String → String → TwoPhaseTransactionRecord → Gateway → Ended)
      (tx : TwoPhaseTransactionRecord) (g : Gateway)
      → (with_banks env during phase tx g).success ≡ true
      → Started env phase tx g (with_banks env during phase tx g)
  unfolding with_banks
  with_banks-Started during phase tx g h =
      let (g1, s) = bank_for env tx.sender g in
      let (g2, r) = bank_for env tx.receiver g1 in
      elim (Result-cases s) [
        | inl (e, p) ↦ absurd (ground (arith, p))
        | inr (sb, p) ↦ elim (Result-cases r) [
          | inl (e, q) ↦ absurd (ground (arith, p, q))
          | inr (rb, q) ↦ record {
            sender_bank = sb;
            receiver_bank = rb;
            at = g2;
            sender_known = bank_for_found tx.sender sb g p;
            receiver_known =
                sym (directory-bank_for tx.sender tx.receiver g)
                ∙ bank_for_found tx.receiver rb g1 q;
            same_network = network-bank_for env tx.receiver g1 ∙ network-bank_for env tx.sender g;
            same_directory =
                λ c. directory-bank_for tx.receiver c g1 ∙ directory-bank_for tx.sender c g;
            same_way = same_way-bank_for env tx.receiver g1 ∙ same_way-bank_for env tx.sender g;
            ended = ground (arith, p, q);
          }
        ]
      ]

-- What the protocol keeps of a record.
record Kept (tx tx' : TwoPhaseTransactionRecord) : Type 0 where
  id : tx'.id ≡ tx.id
  sender : tx'.sender ≡ tx.sender
  receiver : tx'.receiver ≡ tx.receiver
  amount : tx'.amount ≡ tx.amount

prepare_at-Kept :
    (env : Environment) (sb rb : String) (tx : TwoPhaseTransactionRecord) (g : Gateway)
    → (prepare_at env sb rb tx g).success ≡ true
    → Kept tx (prepare_at env sb rb tx g).tx
      × ((prepare_at env sb rb tx g).gateway.banking ≡ g.banking)
      × ((prepare_at env sb rb tx g).gateway.uses_two_phase ≡ g.uses_two_phase)
unfolding prepare_at
prepare_at-Kept env sb rb tx g h = ground arith

-- What a successful payment by two-phase commit has done to the banks of `net`, now `net'`.
pub record Transfer (tx : TwoPhaseTransactionRecord) (banking : BankService) (net net' : Network)
    : Type 0 where
  pub sender_bank : String
  pub receiver_bank : String
  pub sender_known : bank_name_of tx.sender banking ≡ some sender_bank
  pub receiver_known : bank_name_of tx.receiver banking ≡ some receiver_bank
  pub apart : sender_bank ≢ receiver_bank
  pub moved :
      (b c : String)
      → money b c net'
        ≡ transferred sender_bank tx.sender receiver_bank tx.receiver tx.amount b c (money b c net)

commit_phase-Transfer :
    (env : Environment) (tx : TwoPhaseTransactionRecord) (g : Gateway)
    → (commit_phase env tx g).success ≡ true
    → Transfer tx g.banking g.network (commit_phase env tx g).gateway.network
unfolding commit_phase
commit_phase-Transfer env tx g h =
    let st : Started env commit_at tx g (commit_phase env tx g) =
      with_banks-Started env " during commit" commit_at tx g h in
    let agreed = commit_at_agreed env st.sender_bank st.receiver_bank tx st.at (cc (h, st.ended)) in
    let settled =
      both_settled env.commit.sender_first env.commit.sender env.commit.receiver env.reason
        st.sender_bank st.receiver_bank tx.id tx.sender tx.receiver tx.amount st.at.network _
        agreed in
    record {
      sender_bank = st.sender_bank;
      receiver_bank = st.receiver_bank;
      sender_known = st.sender_known;
      receiver_known = st.receiver_known;
      apart = settled.0;
      moved = λ b c. rw (st.ended, ← st.same_network) (settled.1 b c);
    }

prepare_phase-Kept :
    (env : Environment) (tx : TwoPhaseTransactionRecord) (g : Gateway)
    → (prepare_phase env tx g).success ≡ true
    → Kept tx (prepare_phase env tx g).tx
      × ((c : String)
          → bank_name_of c (prepare_phase env tx g).gateway.banking ≡ bank_name_of c g.banking)
unfolding prepare_phase
prepare_phase-Kept env tx g h =
    let st : Started env prepare_at tx g (prepare_phase env tx g) =
      with_banks-Started env "" prepare_at tx g h in
    let kept = prepare_at-Kept env st.sender_bank st.receiver_bank tx st.at (cc (h, st.ended)) in
    (rw st.ended kept.0, λ c. rw (st.ended, kept.1) (st.same_directory c))

money-prepare_phase :
    (env : Environment) (tx : TwoPhaseTransactionRecord) (g : Gateway) (b c : String)
    → money b c (prepare_phase env tx g).gateway.network ≡ money b c g.network
money-prepare_phase env tx g b c =
    ap (λ (d : Dict String ℤ). or_else (pos 0) (lookup c d)) (accounts-prepare_phase env b tx g)

-- A payment by two-phase commit that is reported as a success has moved its amount, whatever
-- happened to the calls: the two clients have different banks in the directory, the sender's bank
-- has taken the amount from the sender and the receiver's bank has given it to the receiver, once
-- each, and no other balance at any bank has changed.
pub run_two_phase_commit-Transfer :
    (env : Environment) (tx : TwoPhaseTransactionRecord) (g : Gateway)
    → (run_two_phase_commit env tx g).success ≡ true
    → Transfer tx g.banking g.network (run_two_phase_commit env tx g).gateway.network
unfolding run_two_phase_commit
run_two_phase_commit-Transfer env tx g h =
    let p = prepare_phase env tx g in
    let e = commit_phase env p.tx p.gateway in
    let prepared_ok : p.success ≡ true = ground arith in
    let (kept, same) = prepare_phase-Kept env tx g prepared_ok in
    let c : Transfer p.tx p.gateway.banking p.gateway.network e.gateway.network =
      commit_phase-Transfer env p.tx p.gateway (ground arith) in
    let same_end : (run_two_phase_commit env tx g).gateway.network ≡ e.gateway.network =
      ground arith in
    record {
      sender_bank = c.sender_bank;
      receiver_bank = c.receiver_bank;
      sender_known = cc (c.sender_known, same tx.sender, kept.sender);
      receiver_known = cc (c.receiver_known, same tx.receiver, kept.receiver);
      apart = c.apart;
      moved = λ b d. cc (
        c.moved b d,
        money-prepare_phase env tx g b d,
        kept.sender,
        kept.receiver,
        kept.amount,
        same_end,
      );
    }

commit_at_committed :
    (env : Environment) (sb rb : String) (tx : TwoPhaseTransactionRecord) (g : Gateway)
    → (commit_at env sb rb tx g).success ≡ true
    → ((commit_at env sb rb tx g).tx.state ≡ committed)
      × ((commit_at env sb rb tx g).gateway.uses_two_phase ≡ g.uses_two_phase)
unfolding commit_at
commit_at_committed env sb rb tx g h = ground arith

commit_phase_committed :
    (env : Environment) (tx : TwoPhaseTransactionRecord) (g : Gateway)
    → (commit_phase env tx g).success ≡ true
    → ((commit_phase env tx g).tx.state ≡ committed)
      × ((commit_phase env tx g).gateway.uses_two_phase ≡ g.uses_two_phase)
unfolding commit_phase
commit_phase_committed env tx g h =
    let st : Started env commit_at tx g (commit_phase env tx g) =
      with_banks-Started env " during commit" commit_at tx g h in
    let last =
      commit_at_committed env st.sender_bank st.receiver_bank tx st.at (cc (h, st.ended)) in
    (rw st.ended last.0, rw st.ended (last.1 ∙ st.same_way))

prepare_phase_way :
    (env : Environment) (tx : TwoPhaseTransactionRecord) (g : Gateway)
    → (prepare_phase env tx g).success ≡ true
    → (prepare_phase env tx g).gateway.uses_two_phase ≡ g.uses_two_phase
unfolding prepare_phase
prepare_phase_way env tx g h =
    let st : Started env prepare_at tx g (prepare_phase env tx g) =
      with_banks-Started env "" prepare_at tx g h in
    let first = prepare_at-Kept env st.sender_bank st.receiver_bank tx st.at (cc (h, st.ended)) in
    rw st.ended (first.2 ∙ st.same_way)

-- A success leaves the record committed and the gateway's mode as it was.
pub run_two_phase_commit_committed :
    (env : Environment) (tx : TwoPhaseTransactionRecord) (g : Gateway)
    → (run_two_phase_commit env tx g).success ≡ true
    → ((run_two_phase_commit env tx g).tx.state ≡ committed)
      × ((run_two_phase_commit env tx g).gateway.uses_two_phase ≡ g.uses_two_phase)
unfolding run_two_phase_commit
run_two_phase_commit_committed env tx g h =
    let p = prepare_phase env tx g in
    let prepared_ok : p.success ≡ true = ground arith in
    let last = commit_phase_committed env p.tx p.gateway (ground arith) in
    ground (arith, last.0, last.1, prepare_phase_way env tx g prepared_ok)
