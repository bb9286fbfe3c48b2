-- ===== src/Main/Database.antt =====
-- internal/store/db.go and internal/store/store.go: how the database is opened and closed. `H` is the type
-- of gorm's handles, `S` that of the pools of database/sql.
pub mod Levels
use policy_manager.Base.{
  ℕ, Bool, true, false, String, [], ◌∷◌, Result, ok, err, ◌>>=◌, ◌==◌, map_err, if◌then◌else◌,
}
use policy_manager.Base.Text.{sprintf}
use policy_manager.Main.Config.{Config, DbConfig}
use policy_manager.Main.Logging.{Level, debug, warn, error}

-- logger.LogLevel of gorm
pub data GormLevel : Type 0 where
  gorm_error gorm_warn gorm_info : GormLevel

-- gorm.Dialector
pub data Dialector : Type 0 where
  postgres sqlite : String → Dialector

-- The fields of logger.Config and gorm.Config that are set, with the level of the log's lines; the slow
-- threshold is in seconds.
pub record GormConfig : Type 0 where
  pub line_level : Level
  pub slow_threshold : ℕ
  pub log_level : GormLevel
  pub ignore_record_not_found_error : Bool
  pub colorful : Bool
  pub translate_error : Bool

-- The switch over `strings.ToLower(level)`.
unfoldable pub gorm_levels_of : String → GormLevel × Level
gorm_levels_of lower =
    if lower == "debug"
    then (gorm_info, debug)
    else if lower == "info"
    then (gorm_warn, warn)
    else if lower == "warn"
    then (gorm_warn, warn)
    else if lower == "warning"
    then (gorm_warn, warn)
    else if lower == "error"
    then (gorm_error, error)
    else (gorm_warn, warn)

unfoldable pub gorm_log_level_from_string : (String → String) → String → GormLevel × Level
gorm_log_level_from_string to_lower level = gorm_levels_of (to_lower level)

unfoldable pub dialector_of : DbConfig → Dialector
dialector_of database =
    if database.type == "pgsql"
    then postgres (
        sprintf (
          "host=" ∷ database.hostname ∷ " user=" ∷ database.user ∷ " password=" ∷ database.password
          ∷ " port=" ∷ database.port ∷ " dbname=" ∷ database.name ∷ []))
    else sqlite database.name

-- gorm.Open, (*gorm.DB).DB, AutoMigrate of the policies, and the settings and Close of the pool.
pub record Gorm (H S : Type 0) : Type 0 where
  pub open_db : Dialector → GormConfig → Result String H
  pub db : H → Result String S
  pub auto_migrate : H → Result String (Unit {0})
  pub set_max_idle_conns : ℕ → S → S
  pub set_max_open_conns : ℕ → S → S
  pub close : S → Result String (Unit {0})

module _ {H S : Type 0} (gorm : Gorm H S) where
  abbrev gorm_config : GormLevel × Level → GormConfig
  gorm_config (gorm_log_level, slog_level) = record {
    line_level = slog_level;
    slow_threshold = 1;
    log_level = gorm_log_level;
    ignore_record_not_found_error = true;
    colorful = false;
    translate_error = true;
  }

  -- The first call of `InitDB`.
  unfoldable pub connect : (String → String) → Config → Result String H
  connect to_lower cfg =
      map_err (λ e. sprintf ("failed to connect to database: " ∷ e ∷ []))
        (gorm.open_db (dialector_of cfg.database)
          (gorm_config (gorm_log_level_from_string to_lower cfg.service.log_level)))

  -- The rest of it on an open handle, which it leaves open if it fails: the handle, and its pool with the
  -- limits that are set on it.
  unfoldable pub set_up : H → Result String (H × S)
  set_up db = do
    sql_db ← map_err (λ e. sprintf ("failed to get underlying db: " ∷ e ∷ [])) (gorm.db db)
    migrated ←
        map_err (λ e. sprintf ("failed to migrate database: " ∷ e ∷ [])) (gorm.auto_migrate db)
    ok (db, gorm.set_max_open_conns 100 (gorm.set_max_idle_conns 10 sql_db))

  -- `InitDB`
  unfoldable pub init_db : (String → String) → Config → Result String (H × S)
  unfolding connect set_up
  init_db to_lower cfg = connect to_lower cfg >>= λ db. set_up db

  -- `(*DataStore).Close`
  unfoldable pub close_store : H → Result String (Unit {0})
  close_store db = gorm.db db >>= λ sql_db. gorm.close sql_db
