-- ===== src/Bank/Money.antt =====
-- The balances of a bank over a sequence of requests: every change of a balance is a payment or a
-- commit that was replied to with success. Only the operations of the source are named, in its order,
-- and no law of arithmetic is used.
use distributed_systems_iiit.Common.{
  ◌≡◌, ◌∙◌, refl, String, Bool, true, List, [], ◌∷◌, ◌==◌, ==_iff, string_key, arith, if◌then◌else◌,
}
use distributed_systems_iiit.Common.Int.{ℤ, ◌+ℤ◌, ◌-ℤ◌}
use distributed_systems_iiit.Common.Dict.{Dict, lookup-insert}
use distributed_systems_iiit.Bank.{
  BankServer, replied, process_payment, prepare_debit, prepare_credit, commit_debit, commit_credit,
  abort, balance_of, find_account,
}
use distributed_systems_iiit.Bank.Requests.{Request, Trace, handle, run, run-cons, FirstStep}

-- What one reply does to the balance of a client of a bank with these accounts.
abbrev pub applied : Dict String String → String → Request → Bool → ℤ → ℤ
applied accounts c (Request.process_payment req) true b =
    if find_account req.account_number accounts == c then b -ℤ req.amount else b
applied accounts c (Request.commit_debit req) true b =
    if req.client_name == c then b -ℤ req.amount else b
applied accounts c (Request.commit_credit req) true b =
    if req.client_name == c then b +ℤ req.amount else b
applied _ _ _ _ b = b

-- The replies applied in turn.
abbrev pub applied_all : Dict String String → String → Trace → ℤ → ℤ
applied_all accounts c [] b = b
applied_all accounts c ((req, success) ∷ rest) b =
    applied_all accounts c rest (applied accounts c req success b)

handle-clients :
    (req : Request) (s : BankServer) {s' : BankServer} {success : Bool}
    → handle req s ≡ replied (s', success)
    → s'.clients ≡ s.clients
unfolding handle process_payment prepare_debit prepare_credit commit_debit commit_credit abort
handle-clients (Request.process_payment req) s h = ground arith
handle-clients (Request.prepare_debit req) s h = ground arith
handle-clients (Request.prepare_credit req) s h = ground arith
handle-clients (Request.commit_debit req) s h = ground arith
handle-clients (Request.commit_credit req) s h = ground arith
handle-clients (Request.abort req) s h = ground arith

handle-applied :
    (c : String) (req : Request) (s : BankServer) {s' : BankServer} {success : Bool}
    → handle req s ≡ replied (s', success)
    → balance_of c s' ≡ applied s.clients c req success (balance_of c s)
unfolding handle process_payment prepare_debit prepare_credit commit_debit commit_credit abort
    balance_of
handle-applied c (Request.process_payment req) s h =
    grind (arith, lookup-insert, ==_iff (find_account req.account_number s.clients) c)
handle-applied c (Request.prepare_debit req) s h = ground arith
handle-applied c (Request.prepare_credit req) s h = ground arith
handle-applied c (Request.commit_debit req) s h =
    grind (arith, lookup-insert, ==_iff req.client_name c)
handle-applied c (Request.commit_credit req) s h =
    grind (arith, lookup-insert, ==_iff req.client_name c)
handle-applied c (Request.abort req) s h = ground arith

-- Over any requests that the bank serves without a panic, the balance of a client ends as the replies
-- with success make it, one after another in the order of the requests: a payment from its account
-- and a committed debit take the amount away, a committed credit adds it, and nothing else changes
-- it. The accounts stay as they are.
pub run-applied :
    (c : String) (reqs : List Request) (s s' : BankServer) (trace : Trace)
    → run reqs s ≡ replied (s', trace)
    → (balance_of c s' ≡ applied_all s.clients c trace (balance_of c s)) × (s'.clients ≡ s.clients)
unfolding run
run-applied c [] s s' trace h = ground arith
run-applied c (req ∷ rest) s s' trace h =
    let step : FirstStep req rest s s' trace = run-cons req rest s s' trace h in
    let (later, same) = run-applied c rest step.middle s' step.later step.others in
    let first = handle-applied c req s step.first in
    let kept = handle-clients req s step.first in
    (rw (step.whole) (later ∙ rw (first, kept) refl), same ∙ kept)
