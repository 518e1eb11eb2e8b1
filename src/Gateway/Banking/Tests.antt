-- ===== src/Gateway/Banking/Tests.antt =====
-- The configuration's two banks, and a file that lists a third one.
use distributed_systems_iiit.Common.{◌≡◌, refl, String, some, List, [], ◌∷◌}
use distributed_systems_iiit.Common.Dict.{Dict, lookup, insert}
use distributed_systems_iiit.Gateway.Banking.{
  ok, err, load_client_mappings, add_accounts, get_bank_name_for_client,
}
use distributed_systems_iiit.Gateway.Config.{load_config}
use distributed_systems_iiit.Gateway.Banking.Setup.{BankConnection, new_bank_service, add_banks}

abbrev connections : List BankConnection
connections = (load_config "config.json").bank_connections

abbrev mappings : Dict String (Dict String String)
mappings =
    ("BankC", ("1", "Dave") ∷ [])
    ∷ ("BankB", ("654321", "Bob") ∷ [])
    ∷ ("BankA", ("123456", "Alice") ∷ [])
    ∷ []

bob_found :
    get_bank_name_for_client "Bob" (new_bank_service connections (some mappings)) ≡ ok "BankB"
unfolding load_config get_bank_name_for_client new_bank_service add_banks load_client_mappings
    add_accounts lookup insert
bob_found = refl

-- A client of a bank that is not configured has none.
dave_not_found :
    get_bank_name_for_client "Dave" (new_bank_service connections (some mappings))
    ≡ err "no bank found for client Dave"
unfolding load_config get_bank_name_for_client new_bank_service add_banks load_client_mappings
    add_accounts lookup insert
dave_not_found = refl
