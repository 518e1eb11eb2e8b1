-- ===== src/Bank/TwoPhase.antt =====
-- The participant's side of two-phase commit: what is prepared can be committed once, what is
-- aborted cannot, and nothing is reserved.
use distributed_systems_iiit.Common.{
  ℕ, ◌+◌, ◌≤◌, ◌≡◌, ◌≢◌, refl, String, Bool, true, Option, none, some, List, [], ◌∷◌, ◌==◌, ==_iff,
  ==_refl, arith, string_key, if◌then◌else◌,
}
use distributed_systems_iiit.Common.Int.{pos, ◌+ℤ◌, ◌-ℤ◌, ◌≤ℤ◌, ◌<ℤ◌, int_laws}
use distributed_systems_iiit.Common.Dict.{lookup, lookup-insert}
use distributed_systems_iiit.Protofiles.{TwoPhaseRequest, TwoPhaseResponse}
use distributed_systems_iiit.Bank.{
  BankServer, TransactionState, prepared, committed, aborted, replied, prepare_debit,
  prepare_credit, commit_debit, process_payment, commit_credit, abort, store_prepared, settle,
  balance_of, has_client,
}
use distributed_systems_iiit.Bank.Branches.{
  prepare_debit_known, commit_debit_prepared, prepared_record,
}
use distributed_systems_iiit.Bank.Requests.{
  Request, Trace, handle, run, run-cons, FirstStep, run-step, run-nil, handle-prepare_debit,
  handle-commit_debit,
}

-- The state of a transaction, if the bank has it.
abbrev pub state_of : String → BankServer → Option TransactionState
state_of id s = elim (lookup id s.transactions) [ none ↦ none | some tx ↦ some tx.state ]

-- 1 for a reply that prepared the transaction `id`.
abbrev prepares_in : String → Request → Bool → ℕ
prepares_in id (Request.prepare_debit req) true = if req.transaction_id == id then 1 else 0
prepares_in id (Request.prepare_credit req) true = if req.transaction_id == id then 1 else 0
prepares_in id _ _ = 0

-- 1 for a reply that settled the transaction `id`.
abbrev commits_in : String → Request → Bool → ℕ
commits_in id (Request.commit_debit req) true = if req.transaction_id == id then 1 else 0
commits_in id (Request.commit_credit req) true = if req.transaction_id == id then 1 else 0
commits_in id _ _ = 0

abbrev pub prepares : String → Trace → ℕ
prepares id [] = 0
prepares id ((req, success) ∷ rest) = prepares_in id req success + prepares id rest

abbrev pub commits : String → Trace → ℕ
commits id [] = 0
commits id ((req, success) ∷ rest) = commits_in id req success + commits id rest

-- 1 while the transaction waits for its commit.
abbrev pub pending : String → BankServer → ℕ
pending id s = elim (lookup id s.transactions) [
  | none ↦ 0
  | some tx ↦ elim tx.state [ prepared ↦ 1 | committed ↦ 0 | aborted ↦ 0 ]
]

handle-pending :
    (id : String) (req : Request) (s : BankServer) {s' : BankServer} {success : Bool}
    → handle req s ≡ replied (s', success)
    → pending id s' + commits_in id req success ≤ pending id s + prepares_in id req success
unfolding handle process_payment prepare_debit prepare_credit commit_debit commit_credit abort
handle-pending id (Request.process_payment req) s h = ground arith
handle-pending id (Request.prepare_debit req) s h =
    grind (arith, ==_iff req.transaction_id id, lookup-insert)
handle-pending id (Request.prepare_credit req) s h =
    grind (arith, ==_iff req.transaction_id id, lookup-insert)
handle-pending id (Request.commit_debit req) s h =
    grind (arith, ==_iff req.transaction_id id, lookup-insert)
handle-pending id (Request.commit_credit req) s h =
    grind (arith, ==_iff req.transaction_id id, lookup-insert)
handle-pending id (Request.abort req) s h =
    grind (arith, ==_iff req.transaction_id id, lookup-insert)

-- Over any requests that the bank serves without a panic, a transaction is committed at most as
-- often as it was prepared, one still pending at the start or the end included.
pub run-commits :
    (id : String) (reqs : List Request) (s s' : BankServer) (trace : Trace)
    → run reqs s ≡ replied (s', trace)
    → commits id trace + pending id s' ≤ prepares id trace + pending id s
unfolding run
run-commits id [] s s' trace h = ground arith
run-commits id (req ∷ rest) s s' trace h =
    let step : FirstStep req rest s s' trace = run-cons req rest s s' trace h in
    rw (step.whole) (
      omega (
        arith,
        handle-pending id req s step.first,
        run-commits id rest step.middle s' step.later step.others,
      ))

-- A debit that is prepared and then committed by the same request, with the account's bank and the
-- funds known, is replied to with success twice; it takes exactly the amount from the client's
-- balance, leaves the other balances alone and ends committed.
pub commit_debit-prepare_debit :
    (req : TwoPhaseRequest) (s : BankServer)
    → has_client req.client_name s.clients ≡ true
    → req.amount ≤ℤ balance_of req.client_name s
    → let (s1, r1) = prepare_debit req s in
      (s2 : BankServer) × (r2 : TwoPhaseResponse) × (commit_debit req s1 ≡ replied (s2, r2))
      × (r1.success ≡ true)
      × (r2.success ≡ true)
      × (state_of req.transaction_id s2 ≡ some committed)
      × ((c : String)
          → balance_of c s2
            ≡ (if req.client_name == c then balance_of c s -ℤ req.amount else balance_of c s))
unfolding balance_of
commit_debit-prepare_debit req s known funds = rw prepare_debit_known (
  settle req (prepared_record req s) (balance_of req.client_name s -ℤ req.amount)
      (store_prepared req s),
  record { success = true; message = "Debit committed" },
  commit_debit_prepared req (store_prepared req s) (prepared_record req s)
      (rw lookup-insert (ground (arith, ==_refl req.transaction_id))) refl,
  refl,
  refl,
  grind (arith, lookup-insert, ==_refl req.transaction_id),
  λ c. rw lookup-insert (ground (arith, ==_iff req.client_name c)),
)

-- Both debits are prepared before either is committed.
abbrev pub two_debits : TwoPhaseRequest → TwoPhaseRequest → List Request
two_debits req other =
    Request.prepare_debit req
    ∷ Request.prepare_debit other
    ∷ Request.commit_debit req
    ∷ Request.commit_debit other
    ∷ []

abbrev pub all_succeed : List Request → Trace
all_succeed [] = []
all_succeed (req ∷ rest) = (req, true) ∷ all_succeed rest

-- Nothing is reserved by a prepare: two debits of one account that are covered one by one and not
-- together, under different ids, are all replied to with success, and the balance ends below 0.
pub overdraft_by_two :
    (req other : TwoPhaseRequest) (s : BankServer)
    → has_client req.client_name s.clients ≡ true
    → other.client_name ≡ req.client_name
    → req.transaction_id ≢ other.transaction_id
    → req.amount ≤ℤ balance_of req.client_name s
    → other.amount ≤ℤ balance_of req.client_name s
    → balance_of req.client_name s <ℤ req.amount +ℤ other.amount
    → (s' : BankServer) × (run (two_debits req other) s
        ≡ replied (s', all_succeed (two_debits req other)))
      × (balance_of req.client_name s' <ℤ pos 0)
overdraft_by_two req other s known same differ funds funds' short =
    let s1 = store_prepared req s in
    let s2 = store_prepared other s1 in
    let s3 = settle req (prepared_record req s) (balance_of req.client_name s2 -ℤ req.amount) s2 in
    let s4 =
      settle other (prepared_record other s1) (balance_of other.client_name s3 -ℤ other.amount)
        s3 in
    let p1 = prepare_debit_known req s known funds in
    let p2 = prepare_debit_known other s1 (rw same known) (unfold balance_of in rw same funds') in
    let c1 =
      commit_debit_prepared req s2 (prepared_record req s)
        (grind (
          arith,
          lookup-insert,
          ==_refl req.transaction_id,
          ==_iff other.transaction_id req.transaction_id,
        ))
        refl in
    let c2 =
      commit_debit_prepared other s3 (prepared_record other s1)
        (grind (
          arith,
          lookup-insert,
          ==_refl other.transaction_id,
          ==_iff req.transaction_id other.transaction_id,
        ))
        refl in
    let r1 =
      run-step _
        (Request.prepare_debit other ∷ Request.commit_debit req ∷ Request.commit_debit other ∷ []) s
        s1 true (handle-prepare_debit req s s1 _ p1) in
    let r2 =
      run-step _ (Request.commit_debit req ∷ Request.commit_debit other ∷ []) s1 s2 true
        (handle-prepare_debit other s1 s2 _ p2) in
    let r3 =
      run-step _ (Request.commit_debit other ∷ []) s2 s3 true
        (handle-commit_debit req s2 s3 _ c1) in
    let r4 = run-step _ [] s3 s4 true (handle-commit_debit other s3 s4 _ c2) in
    (
      s4,
      simp (r1, r2, r3, r4, run-nil),
      unfold balance_of in
          grind (
            int_laws,
            lookup-insert,
            ==_refl req.client_name,
            ==_iff other.client_name req.client_name,
          ),
    )
