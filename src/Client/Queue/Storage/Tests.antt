-- ===== src/Client/Queue/Storage/Tests.antt =====
-- The file of the queue with a concrete encoding: some list, or a text that is not JSON.
use mathlib.Core.List.{Memᴰ}
use distributed_systems_iiit.Common.{
  ◌≡◌, refl, arith, Bool, true, false, Option, none, some, List, [], ◌∷◌,
}
use distributed_systems_iiit.Common.Int.{pos}
use distributed_systems_iiit.Client.Queue.{
  PendingPayment, OfflinePaymentManager, load_pending_payments, new_payment, enqueue,
  already_queued, get_notification,
}
use distributed_systems_iiit.Client.Queue.Storage.{
  Json, written, load_queue_file, save_pending_payments, start_client,
}
use distributed_systems_iiit.Client.Queue.Storage.Restart.{
  start_client-save_pending_payments, enqueue-start_client_lost,
}
use distributed_systems_iiit.Client.Manager.Steps.{started, step, queued}

abbrev parse : Option (List PendingPayment) → List PendingPayment × Bool
parse none = ([], false)
parse (some payments) = (payments, true)

parse_marshalled :
    (payments : List PendingPayment) (data_ : Option (List PendingPayment))
    → some (some payments) ≡ some data_
    → parse data_ ≡ (payments, true)
parse_marshalled payments data_ e = grind (arith, e)

abbrev json : Json
json = record {
  Data = Option (List PendingPayment);
  len = λ data_. 1;
  marshal_indent = λ payments. some (some payments);
  unmarshal = parse;
  len_marshal = λ payments data_ e. refl;
  unmarshal_marshal = λ payments data_ e. parse_marshalled payments data_ e;
}

abbrev payment : PendingPayment
payment = new_payment "alice" (pos 5) "t1" "bob" "alice_req_0" 0

abbrev with_payment : OfflinePaymentManager
with_payment = enqueue "alice" (pos 5) "t1" "bob" "alice_req_0" 0 (load_pending_payments (some []))

start_client-save_pending_payments_example :
    let m' =
      start_client json true
        (save_pending_payments json written with_payment.pending_payments none).0 in
    (m'.pending_payments ≡ with_payment.pending_payments)
    × ((get_notification "t1" m'.notifier).1 ≡ some payment)
unfolding enqueue load_pending_payments already_queued
start_client-save_pending_payments_example =
    start_client-save_pending_payments json with_payment none (some (payment ∷ [])) payment
      (step started (queued "alice" (pos 5) "t1" "bob" "alice_req_0" 0 _)) refl (Memᴰ.head refl)
      refl

-- The file is not JSON.
enqueue-start_client_lost_example :
    let m =
      enqueue "alice" (pos 5) "t1" "bob" "alice_req_0" 0 (start_client json true (some none)) in
    load_queue_file json true (save_pending_payments json written m.pending_payments (some none)).0
    ≡ (payment ∷ [], true)
unfolding load_queue_file
enqueue-start_client_lost_example =
    enqueue-start_client_lost json "alice" (pos 5) "t1" "bob" "alice_req_0" 0 true (some none)
      (some (payment ∷ [])) refl refl
