-- ===== src/Gateway/TwoPhase/Commit.antt =====
-- A commit that both banks agreed to.
use distributed_systems_iiit.Common.{
  ◌≡◌, ◌≢◌, refl, sym, String, Bool, true, false, arith, ◌==◌, ==_iff, string_key, ◌&&◌,
  if◌then◌else◌,
}
use distributed_systems_iiit.Common.Int.{ℤ, ◌+ℤ◌, ◌-ℤ◌}
use distributed_systems_iiit.Gateway.Transactions.{TwoPhaseTransactionRecord}
use distributed_systems_iiit.Gateway.Banking.{
  Result, ok, Delivery, Network, commit_debit, commit_credit, request,
}
use distributed_systems_iiit.Gateway.Banking.Money.{
  money, Settled, Settled-once, money-Settled, commit_debit-Settled, commit_credit-Settled,
}
use distributed_systems_iiit.Gateway.State.{Gateway, Environment}
use distributed_systems_iiit.Gateway.TwoPhase.{both, commit_at, first_error}

-- The amount that a client has at a bank once a transfer is done, from what it had before.
abbrev pub transferred : String → String → String → String → ℤ → String → String → ℤ → ℤ
transferred sender_bank sender receiver_bank receiver amount b c v =
    if sender_bank == b && sender == c
    then v -ℤ amount
    else if receiver_bank == b && receiver == c
    then v +ℤ amount
    else v

module _ (env : Environment) (sb rb : String) (tx : TwoPhaseTransactionRecord) (g : Gateway) where
  abbrev pub debit : Network → Network × Result (Unit {0})
  debit = commit_debit env.commit.sender env.reason sb (request tx.id tx.sender tx.amount)

  abbrev pub credit : Network → Network × Result (Unit {0})
  credit = commit_credit env.commit.receiver env.reason rb (request tx.id tx.receiver tx.amount)

  pub commit_at_agreed :
      (commit_at env sb rb tx g).success ≡ true
      → both env.commit.sender_first debit credit g.network
        ≡ ((commit_at env sb rb tx g).gateway.network, ok tt, ok tt)
  unfolding commit_at first_error
  commit_at_agreed h = ground arith

-- Both commits, in the order in which the banks served them.
pub both_settled :
    (first : Bool) (dd dc : Delivery) (reason sb rb id s r : String) (amount : ℤ)
    (net net' : Network)
    → both first
        (commit_debit dd reason sb (request id s amount))
        (commit_credit dc reason rb (request id r amount))
        net
      ≡ (net', ok tt, ok tt)
    → (sb ≢ rb)
      × ((b c : String) → money b c net' ≡ transferred sb s rb r amount b c (money b c net))
unfolding both
both_settled true dd dc reason sb rb id s r amount net net' h =
    let debit = request id s amount in
    let credit = request id r amount in
    let mid = (commit_debit dd reason sb debit net).0 in
    let st : Settled sb debit (λ v. v -ℤ amount) net mid =
      commit_debit-Settled dd reason sb debit net mid (ground arith) in
    let st' : Settled rb credit (λ v. v +ℤ amount) mid net' =
      commit_credit-Settled dc reason rb credit mid net' (ground arith) in
    (
      λ e. Settled-once (sym e) refl st st',
      λ b c. ground (
        arith,
        money-Settled st b c,
        money-Settled st' b c,
        ==_iff sb b,
        ==_iff rb b,
        ==_iff s c,
        ==_iff r c,
        λ (e : sb ≡ rb). Settled-once (sym e) refl st st',
      ),
    )
both_settled false dd dc reason sb rb id s r amount net net' h =
    let debit = request id s amount in
    let credit = request id r amount in
    let mid = (commit_credit dc reason rb credit net).0 in
    let st : Settled rb credit (λ v. v +ℤ amount) net mid =
      commit_credit-Settled dc reason rb credit net mid (ground arith) in
    let st' : Settled sb debit (λ v. v -ℤ amount) mid net' =
      commit_debit-Settled dd reason sb debit mid net' (ground arith) in
    (
      λ e. Settled-once e refl st st',
      λ b c. ground (
        arith,
        money-Settled st b c,
        money-Settled st' b c,
        ==_iff sb b,
        ==_iff rb b,
        ==_iff s c,
        ==_iff r c,
        λ (e : sb ≡ rb). Settled-once e refl st st',
      ),
    )
