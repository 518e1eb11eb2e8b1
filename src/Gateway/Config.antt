-- ===== src/Gateway/Config.antt =====
-- The configuration of the gateway (gateway/config/config.go). Durations are numbers of seconds.
use distributed_systems_iiit.Common.{ℕ, String, List, [], ◌∷◌}
use distributed_systems_iiit.Gateway.Banking.Setup.{BankConnection}

pub record TlsConfig : Type 0 where
  pub server_cert_path : String
  pub server_key_path : String
  pub ca_cert_path : String

pub record Config : Type 0 where
  pub server_address : String
  pub users_file_path : String
  pub balances_file_path : String
  pub bank_clients_file_path : String
  pub tls_config : TlsConfig
  pub bank_connections : List BankConnection
  pub transaction_ttl : ℕ
  pub cleanup_interval : ℕ
  pub payment_timeout : ℕ

abbrev pub default_config : Config
default_config = record {
  server_address = ":50053";
  users_file_path = "data/users.json";
  balances_file_path = "data/balances.json";
  bank_clients_file_path = "data/bank_clients.json";
  tls_config = record {
    server_cert_path = "certs/server.crt";
    server_key_path = "certs/server.key";
    ca_cert_path = "certs/ca.crt";
  };
  bank_connections =
      record { name = "BankA"; address = "localhost:50051" }
      ∷ record { name = "BankB"; address = "localhost:50052" }
      ∷ [];
  transaction_ttl = 86400;
  cleanup_interval = 60;
  payment_timeout = 5;
}

-- `LoadConfig` does not look at its path.
unfoldable pub load_config : String → Config
load_config config_path = default_config
