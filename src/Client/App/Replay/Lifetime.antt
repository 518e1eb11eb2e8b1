-- ===== src/Client/App/Replay/Lifetime.antt =====
-- While the gateway keeps the record of a payment, no sending of it has an effect.
use distributed_systems_iiit.Common.{
  ℕ, ◌+◌, ◌≤◌, ◌≡◌, ◌≢◌, ◌∙◌, refl, ap, String, true, some, List, [], ◌∷◌, ◌++◌, string_key, arith,
}
use distributed_systems_iiit.Common.Dict.{lookup, IsMap}
use distributed_systems_iiit.Common.Lists.{All}
use distributed_systems_iiit.Protofiles.{PaymentDetails}
use distributed_systems_iiit.Gateway.State.{Gateway}
use distributed_systems_iiit.Gateway.Transactions.{
  two_phase, TwoPhaseTransactionRecord, committed, get_transaction, is_expired,
  cleanup_expired_transactions,
}
use distributed_systems_iiit.Gateway.Payment.Retry.{is_committed}
use distributed_systems_iiit.Gateway.Transactions.Expiry.{
  get_transaction-cleanup_expired_transactions, cleanup_expired_transactions-IsMap,
}
use distributed_systems_iiit.Client.Queue.{PendingPayment}
use distributed_systems_iiit.Client.Interceptors.{TransactionCache}
use distributed_systems_iiit.Client.Processor.{PaymentProcessor, payment_details}
use distributed_systems_iiit.Client.App.Replay.{
  Round, Outside, cleaned, services_of, replay, pay_rounds,
}
use distributed_systems_iiit.Client.App.Replay.Once.{key_of, replay-pay_rounds}

-- The times of all the cleanups.
abbrev pub all_cleanups : List Round → List ℕ
all_cleanups [] = []
all_cleanups (round ∷ rounds) = round.cleanups ++ all_cleanups rounds

-- A gateway that has the payment as committed, in a record of this time.
pub record HasCommitted (id : String) (time : ℕ) (g : Gateway) : Type 0 where
  pub tx : TwoPhaseTransactionRecord
  pub found : get_transaction id g.transactions ≡ some (two_phase tx)
  pub is_committed : tx.state ≡ committed
  pub made : tx.timestamp ≡ time
  pub is_map : IsMap g.transactions.transactions

cleanup-HasCommitted :
    (id : String) (time now : ℕ) (g : Gateway)
    → now ≤ time + g.transactions.ttl
    → HasCommitted id time g
    → HasCommitted id time
        (record g { transactions = cleanup_expired_transactions now g.transactions })
unfolding is_expired
cleanup-HasCommitted id time now g h c = record {
  tx = c.tx;
  found =
      get_transaction-cleanup_expired_transactions id now g.transactions c.is_map
      ∙ ground (arith, c.found, c.made, h);
  is_committed = c.is_committed;
  made = c.made;
  is_map = cleanup_expired_transactions-IsMap now g.transactions c.is_map;
}

cleaned-append : (xs ys : List ℕ) (g : Gateway) → cleaned (xs ++ ys) g ≡ cleaned ys (cleaned xs g)
unfolding cleaned
cleaned-append [] ys g = refl
cleaned-append (x ∷ xs) ys g = cleaned-append xs ys _

cleaned-ttl :
    (times : List ℕ) (g : Gateway) → (cleaned times g).transactions.ttl ≡ g.transactions.ttl
unfolding cleaned cleanup_expired_transactions
cleaned-ttl [] g = refl
cleaned-ttl (now ∷ times) g = cleaned-ttl times _

cleaned-HasCommitted :
    (id : String) (time : ℕ) (times : List ℕ) (g : Gateway)
    → All (λ now. now ≤ time + g.transactions.ttl) times
    → HasCommitted id time g
    → HasCommitted id time (cleaned times g)
unfolding cleaned cleanup_expired_transactions
cleaned-HasCommitted id time [] g h c = c
cleaned-HasCommitted id time (now ∷ times) g h c =
    cleaned-HasCommitted id time times _ h.1 (cleanup-HasCommitted id time now g h.0 c)

All-split :
    (time ttl : ℕ) (xs ys : List ℕ)
    → All (λ now. now ≤ time + ttl) (xs ++ ys)
    → All (λ now. now ≤ time + ttl) xs × All (λ now. now ≤ time + ttl) ys
All-split time ttl [] ys h = (tt, h)
All-split time ttl (x ∷ xs) ys h =
    let (left, right) = All-split time ttl xs ys h.1 in ((h.0, left), right)

-- The payment stays committed, so no round is served.
pay_rounds-cleaned :
    (req : PaymentDetails) (id : String) (time : ℕ) (rounds : List Round) (g : Gateway)
    → HasCommitted id time g
    → All (λ now. now ≤ time + g.transactions.ttl) (all_cleanups rounds)
    → pay_rounds req id rounds g ≡ cleaned (all_cleanups rounds) g
unfolding pay_rounds cleaned
pay_rounds-cleaned req id time [] g c h = refl
pay_rounds-cleaned req id time (round ∷ rounds) g c h =
    let g0 = cleaned round.cleanups g in
    let (left, right) = All-split time g.transactions.ttl round.cleanups (all_cleanups rounds) h in
    let c0 = cleaned-HasCommitted id time round.cleanups g left c in
    let kept : is_committed (get_transaction id g0.transactions) ≡ true =
      ground (arith, c0.found, c0.is_committed) in
    let later : All (λ now. now ≤ time + g0.transactions.ttl) (all_cleanups rounds) =
      rw (cleaned-ttl round.cleanups g) right in
    rw (kept, cleaned-append round.cleanups (all_cleanups rounds) g)
      (pay_rounds-cleaned req id time rounds g0 c0 later)

-- A payment of which the gateway has a committed record, under the identifier that the client's cache
-- holds: while every cleanup runs within the lifetime of that record, the queue may send the payment
-- again any number of times, whatever is lost, and the cleanups are all that happens to the gateway.
pub replay-cleaned :
    (out : Outside) (p : PendingPayment) (first : Round) (rounds : List Round) (time : ℕ)
    (pp : PaymentProcessor) (cache : TransactionCache) (id : String) (g : Gateway)
    → let req = payment_details (services_of out first) p in
      lookup (key_of out req) cache ≡ some id
      → g.uses_two_phase ≡ true
      → p.receiver_name ≢ ""
      → HasCommitted id time g
      → All (λ now. now ≤ time + g.transactions.ttl) (all_cleanups rounds)
      → (replay out p rounds (pp, (cache, g))).1 ≡ (cache, cleaned (all_cleanups rounds) g)
replay-cleaned out p first rounds time pp cache id g known mode named c h =
    replay-pay_rounds out p id cache first named rounds pp g known mode
    ∙ ap (λ (x : Gateway). (cache, x))
        (pay_rounds-cleaned (payment_details (services_of out first) p) id time rounds g c h)
