-- ===== src/Gateway/Server/Chain.antt =====
-- What the chain of interceptors does to a call, and what it logs.
use distributed_systems_iiit.Common.{
  ◌≡◌, ◌≢◌, ◌∙◌, refl, ap, Bool, true, none, List, ◌∷◌, ◌++◌, string_key,
}
use distributed_systems_iiit.Gateway.Auth.{Reply, responded, failed, unary}
use distributed_systems_iiit.Gateway.Monitoring.{Texts}
use distributed_systems_iiit.Gateway.Interceptors.{
  Ending, returned, error, panicked, chain_interceptors, recovery_interceptor,
}
use distributed_systems_iiit.Gateway.Interceptors.Logging.{
  Entry, logging_interceptor, request_entry, ending_entries,
}
use distributed_systems_iiit.Gateway.Calls.{
  Call, authenticate_call, make_payment_call, get_balance_call, get_transaction_status_call,
  list_active_transactions_call, full_method, Response, Request,
}
use distributed_systems_iiit.Gateway.Server.{
  Node, Server, ending_of, handle_call, handle, with_log, auth_interceptor, serve,
}

-- A call behind the authorization alone.
abbrev pub admitted_as : Reply Bool → Node → Node × Ending Response → Node × Ending Response
admitted_as (failed c message) n served = (n, error c message)
admitted_as (responded _) n served = served

module _ (texts : Texts) where
  unfoldable pub admitted_call : Call → Request → Node → Node × Ending Response
  admitted_call call req n =
      admitted_as (unary n.auth (full_method call) req.context (responded true)) n
        (handle_call texts call req n)

  abbrev pub admitted : Request → Node → Node × Ending Response
  admitted req n = admitted_call req.call req n

  -- The log after a call with this ending.
  abbrev pub logged : Request → Ending Response → List Entry → List Entry
  logged req r log =
      ending_entries texts.amount (full_method req.call) req r
      ++ (request_entry (full_method req.call) req ∷ log)

  ending_of-returns : {A : Type 0} (f : A → Response) (r : Reply A) → ending_of f r ≢ panicked
  ending_of-returns f (responded a) h = cc
  ending_of-returns f (failed c message) h = cc

  handle_call-returns :
      (call : Call) (req : Request) (n : Node) → (handle_call texts call req n).1 ≢ panicked
  unfolding handle_call
  handle_call-returns (authenticate_call username password) req n h = cc
  handle_call-returns (make_payment_call details) req n h = ending_of-returns _ _ h
  handle_call-returns (get_balance_call client_name) req n h = ending_of-returns _ _ h
  handle_call-returns (get_transaction_status_call id) req n h = cc
  handle_call-returns list_active_transactions_call req n h = cc

  admitted-returns : (req : Request) (n : Node) → (admitted req n).1 ≢ panicked
  unfolding admitted_call
  admitted-returns req n = go (unary n.auth (full_method req.call) req.context (responded true))
    where
      go : (u : Reply Bool) → (admitted_as u n (handle texts req n)).1 ≢ panicked
      go (failed c message) h = cc
      go (responded _) h = handle_call-returns req.call req n h

  auth_interceptor-admitted :
      (req : Request) (log : List Entry) (n : Node)
      → let (n', r) = admitted req n in
        auth_interceptor (full_method req.call) (with_log texts (handle texts)) req (log, n)
        ≡ ((log, n'), r)
  unfolding auth_interceptor admitted_call
  auth_interceptor-admitted req log n =
      go (unary n.auth (full_method req.call) req.context (responded true))
    where
      go :
          (u : Reply Bool)
          → let (n', r) = admitted_as u n (handle texts req n) in
            elim u [
              | failed c message ↦ ((log, n), error c message)
              | responded _ ↦ with_log texts (handle texts) req (log, n)
            ]
            ≡ ((log, n'), r)
      go (failed c message) = refl
      go (responded _) = refl

  abbrev recover_as : Server → Ending Response → Server × Ending Response
  recover_as s r = elim r [
    | returned a ↦ (s, returned a)
    | error c message ↦ (s, error c message)
    | panicked ↦ (s, returned none)
  ]

  recovered : (s : Server) (r : Ending Response) → r ≢ panicked → recover_as s r ≡ (s, r)
  recovered s (returned a) h = refl
  recovered s (error c message) h = refl
  recovered s panicked h = absurd (h refl)

  -- The chain around the methods answers what the authorization lets through, and logs one entry
  -- before it and those of its ending after it.
  pub serve-admitted :
      (req : Request) (log : List Entry) (n : Node)
      → let (n', r) = admitted req n in serve texts req (log, n) ≡ ((logged req r log, n'), r)
  unfolding serve chain_interceptors recovery_interceptor logging_interceptor
  serve-admitted req log n =
      let (n', r) = admitted req n in
      ap
        (λ (x : Server × Ending Response).
          recover_as (ending_entries texts.amount (full_method req.call) req x.1 ++ x.0.0, x.0.1)
            x.1)
        (auth_interceptor-admitted req (request_entry (full_method req.call) req ∷ log) n)
      ∙ recovered (logged req r log, n') r (admitted-returns req n)
