-- ===== src/Main/Startup.antt =====
-- cmd/policy-manager/main.go (run): what is opened at the start, in which order, and what is closed
-- whichever way the process ends. `H` is the type of the databases, `L` that of the listeners.
pub mod Closes
use policy_manager.Base.{ℕ, String, Option, none, some, List, [], ◌∷◌, ◌++◌, Result, ok, err}
use policy_manager.Main.Config.{Config}
use policy_manager.Main.Database.{Gorm, connect, set_up}

-- What is opened.
pub data Resource (H L : Type 0) : Type 0 where
  database : H → Resource H L
  listener : L → Resource H L

-- The calls that are made, those that fail left out; `served` is `runServers`.
pub data Event (H L : Type 0) : Type 0 where
  opened closed : Resource H L → Event H L
  served : L → L → Event H L

-- `config.Load`, the calls of gorm, strings.ToLower, `policyService.CompileAll`, `net.Listen` and
-- `runServers`.
pub record Parts (H S L : Type 0) : Type 0 where
  pub load : Result String Config
  pub gorm : Gorm H S
  pub to_lower : String → String
  pub compile_all : H → Result String (Unit {0})
  pub listen : String → Result String L
  pub run_servers : L → L → Option String

-- The exit code, with the calls in their order.
abbrev pub Run : (H L : Type 0) → Type 0
Run H L = ℕ × List (Event H L)

module _ {H L : Type 0} where
  failed : Run H L
  failed = (1, [])

  -- The rest of `run` after a resource has been opened and its closing deferred.
  deferred : Resource H L → Run H L → Run H L
  deferred r (code, events) = (code, opened r ∷ (events ++ (closed r ∷ [])))

module _ {H S L : Type 0} (parts : Parts H S L) where
  exit_code : Option String → ℕ
  exit_code none = 0
  exit_code (some e) = 1

  serve : L → L → Run H L
  unfolding exit_code
  serve public_listener engine_listener = (
    exit_code (parts.run_servers public_listener engine_listener),
    served public_listener engine_listener ∷ [],
  )

  with_engine_listener : L → Result String L → Run H L
  unfolding failed deferred serve
  with_engine_listener public_listener (err e) = failed
  with_engine_listener public_listener (ok engine_listener) =
      deferred (listener engine_listener) (serve public_listener engine_listener)

  with_public_listener : Config → Result String L → Run H L
  unfolding failed deferred with_engine_listener
  with_public_listener cfg (err e) = failed
  with_public_listener cfg (ok public_listener) =
      deferred (listener public_listener)
        (with_engine_listener public_listener (parts.listen cfg.service.engine_bind_address))

  compiled : Config → Result String (Unit {0}) → Run H L
  unfolding failed with_public_listener
  compiled cfg (err e) = failed
  compiled cfg (ok u) = with_public_listener cfg (parts.listen cfg.service.bind_address)

  -- After `store.InitDB`: what it has opened is closed by `run` if it succeeds, and by nobody if not.
  with_database : Config → H → Result String (H × S) → Run H L
  unfolding deferred compiled
  with_database cfg opened_db (err e) = (1, opened (database opened_db) ∷ [])
  with_database cfg opened_db (ok (db, pool)) =
      deferred (database db) (compiled cfg (parts.compile_all db))

  with_connection : Config → Result String H → Run H L
  unfolding failed with_database
  with_connection cfg (err e) = failed
  with_connection cfg (ok db) = with_database cfg db (set_up parts.gorm db)

  with_config : Result String Config → Run H L
  unfolding failed with_connection
  with_config (err e) = failed
  with_config (ok cfg) = with_connection cfg (connect parts.gorm parts.to_lower cfg)

  unfoldable pub run : Run H L
  unfolding with_config
  run = with_config parts.load
