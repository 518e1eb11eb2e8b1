-- ===== src/Bank/Requests.antt =====
-- The RPCs of a bank server as one type, and its runs over sequences of them.
use distributed_systems_iiit.Common.{◌≡◌, refl, Bool, List, [], ◌∷◌}
use distributed_systems_iiit.Protofiles.{PaymentRequest, TwoPhaseRequest, TwoPhaseResponse}
use distributed_systems_iiit.Bank
use distributed_systems_iiit.Bank.{BankServer, Outcome, replied, panicked}

-- The methods of `service BankService` that may change the state.
pub data Request : Type 0 where
  process_payment : PaymentRequest → Request
  prepare_debit prepare_credit commit_debit commit_credit abort : TwoPhaseRequest → Request

-- The state after a request, with the `success` of the reply.
unfoldable pub handle : Request → BankServer → Outcome (BankServer × Bool)
handle (Request.process_payment req) s =
    let (s', r) = Bank.process_payment req s in replied (s', r.success)
handle (Request.prepare_debit req) s =
    let (s', r) = Bank.prepare_debit req s in replied (s', r.success)
handle (Request.prepare_credit req) s =
    let (s', r) = Bank.prepare_credit req s in replied (s', r.success)
handle (Request.commit_debit req) s = elim (Bank.commit_debit req s) [
  | replied (s', r) ↦ replied (s', r.success)
  | panicked ↦ panicked
]
handle (Request.commit_credit req) s =
    let (s', r) = Bank.commit_credit req s in replied (s', r.success)
handle (Request.abort req) s = let (s', r) = Bank.abort req s in replied (s', r.success)

-- Requests with the `success` of their replies, the oldest first.
abbrev pub Trace : Type 0
Trace = List (Request × Bool)

abbrev pub record_reply :
    Request × Bool → Outcome (BankServer × Trace) → Outcome (BankServer × Trace)
record_reply entry (replied (s, trace)) = replied (s, entry ∷ trace)
record_reply entry panicked = panicked

-- Serves the requests in turn; a panic ends the process.
unfoldable pub run : List Request → BankServer → Outcome (BankServer × Trace)
unfolding handle
run [] s = replied (s, [])
run (req ∷ rest) s = elim (handle req s) [
  | replied (s', success) ↦ record_reply (req, success) (run rest s')
  | panicked ↦ panicked
]

-- A run that came to its end began with one request that was replied to.
pub record FirstStep (req : Request) (rest : List Request) (s s' : BankServer) (trace : Trace)
    : Type 0 where
  pub middle : BankServer
  pub success : Bool
  pub later : Trace
  pub first : handle req s ≡ replied (middle, success)
  pub others : run rest middle ≡ replied (s', later)
  pub whole : trace ≡ (req, success) ∷ later

pub run-cons :
    (req : Request) (rest : List Request) (s s' : BankServer) (trace : Trace)
    → run (req ∷ rest) s ≡ replied (s', trace)
    → FirstStep req rest s s' trace
unfolding run
run-cons req rest s s' trace h = first (handle req s) refl
  where
    second :
        (s1 : BankServer) (success : Bool)
        → handle req s ≡ replied (s1, success)
        → (o : Outcome (BankServer × Trace)) → run rest s1 ≡ o
        → record_reply (req, success) o ≡ replied (s', trace)
        → FirstStep req rest s s' trace
    second s1 success p (replied (s2, later)) q w = record {
      middle = s1;
      success = success;
      later = later;
      first = p;
      others = cc;
      whole = cc;
    }
    second s1 success p panicked q w = cc

    first : (o : Outcome (BankServer × Bool)) → handle req s ≡ o → FirstStep req rest s s' trace
    first (replied (s1, success)) p = second s1 success p (run rest s1) refl (rw (p, run) at h)
    first panicked p = cc (rw (p, run) at h)

pub handle-prepare_debit :
    (req : TwoPhaseRequest) (s s' : BankServer) (r : TwoPhaseResponse)
    → Bank.prepare_debit req s ≡ (s', r)
    → handle (Request.prepare_debit req) s ≡ replied (s', r.success)
unfolding handle
handle-prepare_debit req s s' r h = rw h

pub handle-commit_debit :
    (req : TwoPhaseRequest) (s s' : BankServer) (r : TwoPhaseResponse)
    → Bank.commit_debit req s ≡ replied (s', r)
    → handle (Request.commit_debit req) s ≡ replied (s', r.success)
unfolding handle
handle-commit_debit req s s' r h = rw (h, handle)

pub run-step :
    (req : Request) (rest : List Request) (s s' : BankServer) (success : Bool)
    → handle req s ≡ replied (s', success)
    → run (req ∷ rest) s ≡ record_reply (req, success) (run rest s')
unfolding run
run-step req rest s s' success h = rw (h, run)

pub run-nil : (s : BankServer) → run [] s ≡ replied (s, [])
unfolding run
run-nil s = refl
