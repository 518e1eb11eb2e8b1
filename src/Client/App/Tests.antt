-- ===== src/Client/App/Tests.antt =====
-- Alice and Carol at a client without a connection.
use mathlib.Core.List.{Memᴰ}
use distributed_systems_iiit.Common.{
  ℕ, suc, ◌≡◌, refl, false, none, some, [], ◌∷◌, ◌==◌, string_key, ◌||◌, if◌then◌else◌,
}
use distributed_systems_iiit.Common.Int.{pos}
use distributed_systems_iiit.Gateway.Banking.{err}
use distributed_systems_iiit.Client.Queue.{new_payment, OfflinePaymentManager}
use distributed_systems_iiit.Client.Login.{
  User, new_auth_manager, new_request_counter, is_authenticated, authenticate_users, lets_in,
  is_authenticated-authenticate_users,
}
use distributed_systems_iiit.Client.App.{Platform, ClientApp, payment_queued, handle_make_payment}
use distributed_systems_iiit.Client.App.Payments.{second_failure_is_dropped}

-- No call gets through; the world counts them.
abbrev pub offline : Platform ℕ
offline = record {
  services = record {
    authenticate = λ username password n. (suc n, err "unavailable");
    make_payment = λ ctx req n. (suc n, err "unavailable");
    contains = λ message part. message == part;
  };
  login = λ username password n. (suc n, err "unavailable");
  get_balance = λ ctx client_name n. (suc n, err "unavailable");
  parse_amount = λ text. if text == "9" then some (pos 9) else none;
  decimal = λ n. "0";
}

abbrev alices : OfflinePaymentManager
alices = record {
  pending_payments = new_payment "Alice" (pos 5) "" "Bob" "Alice_req_0" 1 ∷ [];
  is_connected = false;
  notifier = [];
  queue_file = new_payment "Alice" (pos 5) "" "Bob" "Alice_req_0" 1 ∷ [];
}

abbrev pub app : ClientApp ℕ
app = record {
  auth_manager = new_auth_manager;
  request_counter = new_request_counter [];
  offline_manager = alices;
  processor = record { credentials = []; authenticated = [] };
  world = 0;
}

abbrev carol : User
carol = record { username = "Carol"; password = "a guess" }

second_failure_is_dropped_example :
    let (app', shown) = handle_make_payment offline "Carol" "9" "2" "Bob" 2 app in
    (shown ≡ payment_queued "") × (app'.offline_manager ≡ alices)
second_failure_is_dropped_example =
    second_failure_is_dropped offline "Carol" "9" "2" "Bob" "unavailable" (pos 9) 2 app
      (new_payment "Alice" (pos 5) "" "Bob" "Alice_req_0" 1) refl refl refl (Memᴰ.head refl) refl

is_authenticated-authenticate_users_example :
    is_authenticated "Carol" (authenticate_users offline.login (carol ∷ []) (new_auth_manager, 0)).0
    ≡ (is_authenticated "Carol" new_auth_manager || lets_in (offline.login "Carol" "a guess" 0).1)
is_authenticated-authenticate_users_example =
    is_authenticated-authenticate_users offline.login carol new_auth_manager 0
