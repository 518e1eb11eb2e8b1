-- ===== src/Gateway/Banking/Money.antt =====
-- The calls and the money: what the gateway's calls do to the balances of the banks.
use distributed_systems_iiit.Common.{
  ◌≡◌, inl, inr, Option-cases, String, none, some, [], ◌==◌, ==_iff, string_key, or_else, arith,
  ◌&&◌, if◌then◌else◌,
}
use distributed_systems_iiit.Common.Int.{ℤ, pos, ◌+ℤ◌, ◌-ℤ◌}
use distributed_systems_iiit.Common.Dict.{Dict, lookup, insert, lookup-insert}
use distributed_systems_iiit.Protofiles.{TwoPhaseRequest, TwoPhaseResponse}
use distributed_systems_iiit.Bank
use distributed_systems_iiit.Bank.{BankServer, replied, Transaction, prepared, settle, balance_of}
use distributed_systems_iiit.Gateway.Banking.{
  two_phase_call, request, ok, Network, Delivery, prepare_debit, prepare_credit, commit_debit,
  commit_credit, abort,
}

-- The balances of a bank; none where no process of that name runs.
abbrev pub accounts : String → Network → Dict String ℤ
accounts b net = elim (lookup b net) [ none ↦ [] | some s ↦ s.balances ]

-- What a client has at a bank.
abbrev pub money : String → String → Network → ℤ
money b c net = or_else (pos 0) (lookup c (accounts b net))

-- A call whose handler keeps the balances of every bank.
accounts-call :
    (d : Delivery) (reason bank : String) (f : BankServer → BankServer × TwoPhaseResponse)
    → ((s : BankServer) → (f s).0.balances ≡ s.balances)
    → (net : Network) (b : String)
    → accounts b (two_phase_call d reason bank (λ s. replied (f s)) net).0 ≡ accounts b net
unfolding two_phase_call
accounts-call d reason bank f keep net b = elim (Option-cases (lookup bank net)) [
  | inl e ↦ ground arith
  | inr (s, e) ↦ ground (arith, keep s, lookup-insert bank b (f s).0 net, ==_iff bank b)
]

module _ (d : Delivery) (reason bank : String) (req : TwoPhaseRequest) (net : Network)
    (b : String) where
  pub accounts-prepare_debit : accounts b (prepare_debit d reason bank req net).0 ≡ accounts b net
  unfolding prepare_debit Bank.prepare_debit
  accounts-prepare_debit =
      accounts-call d reason bank (Bank.prepare_debit req) (λ s. ground arith) net b

  pub accounts-prepare_credit : accounts b (prepare_credit d reason bank req net).0 ≡ accounts b net
  unfolding prepare_credit Bank.prepare_credit
  accounts-prepare_credit =
      accounts-call d reason bank (Bank.prepare_credit req) (λ s. ground arith) net b

pub accounts-abort :
    (d : Delivery) (reason bank tx_id : String) (net : Network) (b : String)
    → accounts b (abort d reason bank tx_id net).0 ≡ accounts b net
unfolding abort Bank.abort
accounts-abort d reason bank tx_id net b =
    accounts-call d reason bank (Bank.abort (request tx_id "" (pos 0))) (λ s. ground arith) net b

-- What a commit that was agreed to found and left.
pub record Settled (bank : String) (req : TwoPhaseRequest) (change : ℤ → ℤ) (net net' : Network)
    : Type 0 where
  pub server : BankServer
  pub tx : Transaction
  pub running : lookup bank net ≡ some server
  pub known : lookup req.transaction_id server.transactions ≡ some tx
  pub waiting : tx.state ≡ prepared
  pub after :
      net' ≡ insert bank (settle req tx (change (balance_of req.client_name server)) server) net

module _ (d : Delivery) (reason bank : String) (req : TwoPhaseRequest) (net net' : Network) where
  pub commit_debit-Settled :
      commit_debit d reason bank req net ≡ (net', ok tt)
      → Settled bank req (λ v. v -ℤ req.amount) net net'
  unfolding commit_debit Bank.commit_debit
  commit_debit-Settled h = elim (Option-cases (lookup bank net)) [
    | inl e ↦ absurd (ground arith)
    | inr (s, e) ↦ elim (Option-cases (lookup req.transaction_id s.transactions)) [
      | inl unknown ↦ absurd (ground arith)
      | inr (tx, known) ↦ record {
        server = s;
        tx = tx;
        running = e;
        known = known;
        waiting = ground arith;
        after = ground arith;
      }
    ]
  ]

  pub commit_credit-Settled :
      commit_credit d reason bank req net ≡ (net', ok tt)
      → Settled bank req (λ v. v +ℤ req.amount) net net'
  unfolding commit_credit Bank.commit_credit
  commit_credit-Settled h = elim (Option-cases (lookup bank net)) [
    | inl e ↦ absurd (ground arith)
    | inr (s, e) ↦ elim (Option-cases (lookup req.transaction_id s.transactions)) [
      | inl unknown ↦ absurd (ground arith)
      | inr (tx, known) ↦ record {
        server = s;
        tx = tx;
        running = e;
        known = known;
        waiting = ground arith;
        after = ground arith;
      }
    ]
  ]

-- What one settled commit does to the money.
pub money-Settled :
    {bank : String} {req : TwoPhaseRequest} {change : ℤ → ℤ} {net net' : Network}
    → Settled bank req change net net'
    → (b c : String)
    → money b c net'
      ≡ (if bank == b && req.client_name == c then change (money b c net) else money b c net)
unfolding balance_of
money-Settled {bank} {req} {change} {net} st b c =
    rw st.after (grind (arith, lookup-insert, ==_iff bank b, ==_iff req.client_name c, st.running))

-- The record of a transaction that has been committed at a bank is not waiting there.
pub Settled-once :
    {bank bank' : String} {req req' : TwoPhaseRequest} {change change' : ℤ → ℤ}
    {net mid net' : Network}
    → bank' ≡ bank
    → req'.transaction_id ≡ req.transaction_id
    → Settled bank req change net mid
    → Settled bank' req' change' mid net'
    → ⊥
Settled-once {bank} {bank'} {req} {req'} {change} {change'} {net} same_bank same st st' = grind (
  arith,
  lookup-insert,
  ==_iff bank bank',
  ==_iff req.transaction_id req'.transaction_id,
  st.after,
  st'.running,
  st'.known,
  st'.waiting,
)
