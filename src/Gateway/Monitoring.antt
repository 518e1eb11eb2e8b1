-- ===== src/Gateway/Monitoring.antt =====
-- What the gateway tells about its transactions (gateway/server.go, and the reads of
-- gateway/payment/transaction.go). The library's texts of amounts, times and votes are an argument.
use Prim.Native.String.{◌++◌}
use distributed_systems_iiit.Common.{
  ℕ, ◌≡◌, ◌∙◌, refl, ap, subst, inl, inr, String, Bool, Option, none, some, List, [], ◌∷◌, ◌==◌,
  ==_iff, string_key, or_else, if◌then◌else◌, Bool-cases,
}
use distributed_systems_iiit.Common.Int.{ℤ}
use distributed_systems_iiit.Common.Dict.{Dict, lookup, IsMap}
use distributed_systems_iiit.Gateway.Auth.{Context}
use distributed_systems_iiit.Gateway.Transactions.{
  TransactionState, preparing, prepared, committing, committed, aborting, aborted,
  SimpleTransactionRecord, TwoPhaseTransactionRecord, Record, simple, two_phase, TransactionManager,
  get_transaction,
}

pub record Texts : Type 0 where
  pub amount : ℤ → String
  pub time : ℕ → String
  pub since : ℕ → String
  pub votes : Dict String Bool → String
  pub truth : Bool → String

-- The metadata of a response are listed in the order of the source.
pub record TransactionStatusResponse : Type 0 where
  pub transaction_id : String
  pub status : String
  pub message : String
  pub metadata : Dict String String

pub record TransactionInfo : Type 0 where
  pub id : String
  pub type : String
  pub sender : String
  pub receiver : String
  pub amount : ℤ
  pub status : String
  pub timestamp : String

-- A copy of the map.
abbrev pub get_active_transactions : TransactionManager → Dict String Record
get_active_transactions tm = tm.transactions

abbrev pub get_prepare_votes : TwoPhaseTransactionRecord → Dict String Bool
get_prepare_votes tx = tx.prepare_votes

abbrev pub get_commit_votes : TwoPhaseTransactionRecord → Dict String Bool
get_commit_votes tx = tx.commit_votes

unfoldable pub get_transaction_id : Context → String
get_transaction_id none = ""
get_transaction_id (some md) = elim (or_else [] (lookup "transaction_id" md)) [
  | [] ↦ ""
  | v ∷ _ ↦ v
]

abbrev pub state_text : TransactionState → String
state_text preparing = "preparing"
state_text prepared = "prepared"
state_text committing = "committing"
state_text committed = "committed"
state_text aborting = "aborting"
state_text aborted = "aborted"

module _ (texts : Texts) where
  unfoldable pub two_phase_status : String → TwoPhaseTransactionRecord → TransactionStatusResponse
  two_phase_status id tx =
      let state = state_text tx.state in
      record {
        transaction_id = id;
        status = state;
        message = "2PC Transaction in state: " ++ state;
        metadata =
            ("type", "two_phase_commit")
            ∷ ("sender", tx.sender)
            ∷ ("receiver", tx.receiver)
            ∷ ("amount", texts.amount tx.amount)
            ∷ ("timestamp", texts.time tx.timestamp)
            ∷ ("prepare_votes", texts.votes (get_prepare_votes tx))
            ∷ ("commit_votes", texts.votes (get_commit_votes tx))
            ∷ ("elapsed_time", texts.since tx.timestamp)
            ∷ [];
      }

  unfoldable pub simple_status : String → SimpleTransactionRecord → TransactionStatusResponse
  simple_status id tx = record {
    transaction_id = id;
    status = "completed";
    message = "Simple transaction (non-2PC) completed";
    metadata =
        ("type", "simple")
        ∷ ("client", tx.client_name)
        ∷ ("amount", texts.amount tx.amount)
        ∷ ("timestamp", texts.time tx.processed_at)
        ∷ ("success", texts.truth tx.result.success)
        ∷ [];
  }

  -- `TransactionMonitoringService.GetTransactionStatus`
  unfoldable pub get_transaction_status : String → TransactionManager → TransactionStatusResponse
  unfolding get_transaction two_phase_status simple_status
  get_transaction_status id tm = elim (get_transaction id tm) [
    | none ↦ record {
      transaction_id = id;
      status = "not_found";
      message = "Transaction not found";
      metadata = [];
    }
    | some (two_phase tx) ↦ two_phase_status id tx
    | some (simple tx) ↦ simple_status id tx
  ]

  unfoldable pub transaction_info : String → TwoPhaseTransactionRecord → TransactionInfo
  transaction_info id tx = record {
    id = id;
    type = "two_phase_commit";
    sender = tx.sender;
    receiver = tx.receiver;
    amount = tx.amount;
    status = state_text tx.state;
    timestamp = texts.time tx.timestamp;
  }

  -- The loop of `ListActiveTransactions`: one-step payments are passed over.
  unfoldable pub list_transactions : Dict String Record → List TransactionInfo
  unfolding transaction_info
  list_transactions [] = []
  list_transactions ((id, two_phase tx) ∷ rest) = transaction_info id tx ∷ list_transactions rest
  list_transactions ((_, simple _) ∷ rest) = list_transactions rest

  unfoldable pub list_active_transactions : TransactionManager → List TransactionInfo
  unfolding list_transactions
  list_active_transactions tm = list_transactions (get_active_transactions tm)

  -- The first entry of the list with the id.
  abbrev pub listed : String → List TransactionInfo → Option TransactionInfo
  listed id [] = none
  listed id (info ∷ rest) = if info.id == id then some info else listed id rest

  abbrev pub info_of : String → Option Record → Option TransactionInfo
  info_of id none = none
  info_of id (some (simple _)) = none
  info_of id (some (two_phase tx)) = some (transaction_info id tx)

  listed-list_transactions :
      (id : String) (d : Dict String Record)
      → IsMap d
      → listed id (list_transactions d) ≡ info_of id (lookup id d)
  unfolding list_transactions lookup transaction_info
  listed-list_transactions id [] m = refl
  listed-list_transactions id ((j, simple tx) ∷ rest) m = elim (Bool-cases (j == id)) [
    | inl e ↦
        let gone : lookup id rest ≡ none =
          subst (λ x. lookup x rest ≡ none) ((==_iff j id).0 e) m.0 in
        rw e (listed-list_transactions id rest m.1 ∙ ap (info_of id) gone)
    | inr e ↦ rw e (listed-list_transactions id rest m.1)
  ]
  listed-list_transactions id ((j, two_phase tx) ∷ rest) m = elim (Bool-cases (j == id)) [
    | inl e ↦ rw e (ap (λ x. some (transaction_info x tx)) ((==_iff j id).0 e))
    | inr e ↦ rw e (listed-list_transactions id rest m.1)
  ]

  -- Where each transaction has one record, the list of the active transactions shows a transaction
  -- exactly if its record is one of two-phase commit, with what the record holds, whatever its
  -- state; one-step payments are not shown.
  listed-list_active_transactions :
      (id : String) (tm : TransactionManager)
      → IsMap tm.transactions
      → listed id (list_active_transactions tm) ≡ info_of id (get_transaction id tm)
  unfolding list_active_transactions get_transaction
  listed-list_active_transactions id tm m = listed-list_transactions id tm.transactions m
