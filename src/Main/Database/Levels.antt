-- ===== src/Main/Database/Levels.antt =====
-- internal/store/db.go with internal/logging/logging.go: the levels of the two logs.
use policy_manager.Base.{◌≤◌, ◌==◌, eq_iff, Bool-cases, inl, inr, String, arith}
use policy_manager.Main.Logging.{severity, level_of, init}
use policy_manager.Main.Database.{gorm_levels_of, gorm_log_level_from_string}

level_of-gorm_levels_of :
    (lower : String) → severity (level_of lower).0 ≤ severity (gorm_levels_of lower).1
unfolding level_of gorm_levels_of
level_of-gorm_levels_of lower = elim (Bool-cases (lower == "info")) [
  | inl h ↦ rw ((eq_iff lower "info").0 h) (omega arith)
  | inr h ↦ rw h (ground arith)
]

-- Whatever the configured level is, the lines that gorm logs have a level that the handler installed by
-- Init lets through: no line of gorm's log is lost to the level of the default logger.
pub gorm_log_level_from_string-enabled :
    (to_lower : String → String) (level : String)
    → severity (init to_lower level).0 ≤ severity (gorm_log_level_from_string to_lower level).1
unfolding init gorm_log_level_from_string
gorm_log_level_from_string-enabled to_lower level = level_of-gorm_levels_of (to_lower level)
