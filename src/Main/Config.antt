-- ===== src/Main/Config.antt =====
-- internal/config/config.go
use policy_manager.Base.{String, Result, ok, ◌>>=◌}

pub record ServiceConfig : Type 0 where
  pub bind_address : String
  pub engine_bind_address : String
  pub log_level : String

pub record DbConfig : Type 0 where
  pub type : String
  pub hostname : String
  pub port : String
  pub name : String
  pub user : String
  pub password : String

pub record Config : Type 0 where
  pub service : ServiceConfig
  pub database : DbConfig

-- envconfig.Process at the two records.
pub record Envconfig : Type 0 where
  pub process_service : Result String ServiceConfig
  pub process_database : Result String DbConfig

unfoldable pub load : Envconfig → Result String Config
load env = do
  service ← env.process_service
  database ← env.process_database
  ok (record { service = service; database = database })
