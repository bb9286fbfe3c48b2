-- ===== src/Main/Startup/Closes.antt =====
-- cmd/policy-manager/main.go (run): the exit code, and that what is opened is closed.
use policy_manager.Base.{
  ◌≡◌, refl, ap, ◌>>=◌, ◌⊎◌, inl, inr, String, Option, none, some, List, [], ◌∷◌, ◌++◌, Result, ok,
  err,
}
use policy_manager.Main.Config.{Config}
use policy_manager.Main.Database.{connect, set_up, init_db}
use policy_manager.Main.Startup.{
  Resource, database, listener, Event, opened, closed, served, Parts, Run, failed, deferred,
  exit_code, serve, with_engine_listener, with_public_listener, compiled, with_database,
  with_connection, with_config, run,
}

module _ {H L : Type 0} where
  -- Each opening has its closing after all that was opened in between has been closed, and the servers
  -- run inside.
  pub data Nested : List (Event H L) → Type 0 where
    nothing : Nested []
    serving :
        (public_listener engine_listener : L) → Nested (served public_listener engine_listener ∷ [])
    around :
        (r : Resource H L) {events : List (Event H L)}
        → Nested events
        → Nested (opened r ∷ (events ++ (closed r ∷ [])))

-- Every call of `run` has succeeded, and the servers have returned nil while the database and the two
-- listeners were open.
abbrev pub Succeeded : {H S L : Type 0} → Parts H S L → List (Event H L) → Type 0
Succeeded {H} {S} {L} parts events =
    (cfg : Config) × (db : H) × (pool : S) × (public_listener engine_listener : L) × (parts.load
      ≡ ok cfg)
    × (init_db parts.gorm parts.to_lower cfg ≡ ok (db, pool))
    × (parts.compile_all db ≡ ok tt)
    × (parts.listen cfg.service.bind_address ≡ ok public_listener)
    × (parts.listen cfg.service.engine_bind_address ≡ ok engine_listener)
    × (parts.run_servers public_listener engine_listener ≡ none)
    × (events
        ≡ opened (database db)
          ∷ opened (listener public_listener)
          ∷ opened (listener engine_listener)
          ∷ served public_listener engine_listener
          ∷ closed (listener engine_listener)
          ∷ closed (listener public_listener)
          ∷ closed (database db)
          ∷ [])

-- The database has been opened, InitDB has failed after that, and nothing has closed the database.
abbrev pub LeftOpen : {H S L : Type 0} → Parts H S L → List (Event H L) → Type 0
LeftOpen {H} {S} {L} parts events =
    (cfg : Config) × (db : H) × (e : String) × (parts.load ≡ ok cfg)
    × (connect parts.gorm parts.to_lower cfg ≡ ok db)
    × (init_db parts.gorm parts.to_lower cfg ≡ err e)
    × (events ≡ opened (database db) ∷ [])

-- What can be said of an exit code with the calls that were made.
abbrev pub IsOutcome : {H S L : Type 0} → Parts H S L → Run H L → Type 0
IsOutcome parts (code, events) =
    ((code ≡ 0) × Nested events × Succeeded parts events)
    ⊎ (((code ≡ 1) × Nested events) ⊎ ((code ≡ 1) × LeftOpen parts events))

module _ {H S L : Type 0} (parts : Parts H S L) where
  -- A way for `run` to fail after which everything is closed.
  fails : {events : List (Event H L)} → Nested events → IsOutcome parts (1, events)
  fails nested = inr (inl (refl, nested))

  -- The calls that have succeeded before `runServers`; each lemma below adds the next one.
  abbrev Opened : Config → H → S → Type 0
  Opened cfg db pool =
      (parts.load ≡ ok cfg) × (init_db parts.gorm parts.to_lower cfg ≡ ok (db, pool))

  served-IsOutcome :
      (cfg : Config) (db : H) (pool : S) (pl el : L) (r : Option String)
      → Opened cfg db pool
      → parts.compile_all db ≡ ok tt
      → parts.listen cfg.service.bind_address ≡ ok pl
      → parts.listen cfg.service.engine_bind_address ≡ ok el
      → parts.run_servers pl el ≡ r
      → IsOutcome parts (
          deferred (database db) (
            deferred (listener pl) (deferred (listener el) (exit_code parts r, served pl el ∷ []))))
  unfolding deferred exit_code
  served-IsOutcome cfg db pool pl el none h3 h4 h5 h6 h7 = inl (
    refl,
    around _ (around _ (around _ (serving pl el))),
    (cfg, db, pool, pl, el, h3.0, h3.1, h4, h5, h6, h7, refl),
  )
  served-IsOutcome cfg db pool pl el (some e) h3 h4 h5 h6 h7 =
      fails (around _ (around _ (around _ (serving pl el))))

  engine_listener-IsOutcome :
      (cfg : Config) (db : H) (pool : S) (pl : L) (r : Result String L)
      → Opened cfg db pool
      → parts.compile_all db ≡ ok tt
      → parts.listen cfg.service.bind_address ≡ ok pl
      → parts.listen cfg.service.engine_bind_address ≡ r
      → IsOutcome parts
          (deferred (database db) (deferred (listener pl) (with_engine_listener parts pl r)))
  unfolding with_engine_listener serve deferred failed
  engine_listener-IsOutcome cfg db pool pl (err e) h3 h4 h5 h6 = fails (around _ (around _ nothing))
  engine_listener-IsOutcome cfg db pool pl (ok el) h3 h4 h5 h6 =
      served-IsOutcome cfg db pool pl el (parts.run_servers pl el) h3 h4 h5 h6 refl

  public_listener-IsOutcome :
      (cfg : Config) (db : H) (pool : S) (r : Result String L)
      → Opened cfg db pool
      → parts.compile_all db ≡ ok tt
      → parts.listen cfg.service.bind_address ≡ r
      → IsOutcome parts (deferred (database db) (with_public_listener parts cfg r))
  unfolding with_public_listener deferred failed
  public_listener-IsOutcome cfg db pool (err e) h3 h4 h5 = fails (around _ nothing)
  public_listener-IsOutcome cfg db pool (ok pl) h3 h4 h5 =
      engine_listener-IsOutcome cfg db pool pl (parts.listen cfg.service.engine_bind_address) h3 h4
        h5 refl

  compiled-IsOutcome :
      (cfg : Config) (db : H) (pool : S) (r : Result String (Unit {0}))
      → Opened cfg db pool
      → parts.compile_all db ≡ r
      → IsOutcome parts (deferred (database db) (compiled parts cfg r))
  unfolding compiled deferred failed
  compiled-IsOutcome cfg db pool (err e) h3 h4 = fails (around _ nothing)
  compiled-IsOutcome cfg db pool (ok tt) h3 h4 =
      public_listener-IsOutcome cfg db pool (parts.listen cfg.service.bind_address) h3 h4 refl

  database-IsOutcome :
      (cfg : Config) (db : H) (r : Result String (H × S))
      → parts.load ≡ ok cfg
      → connect parts.gorm parts.to_lower cfg ≡ ok db
      → init_db parts.gorm parts.to_lower cfg ≡ r
      → IsOutcome parts (with_database parts cfg db r)
  unfolding with_database
  database-IsOutcome cfg db (err e) h1 h2 h3 = inr (inr (refl, (cfg, db, e, h1, h2, h3, refl)))
  database-IsOutcome cfg db (ok (db', pool)) h1 h2 h3 =
      compiled-IsOutcome cfg db' pool (parts.compile_all db') (h1, h3) refl

  connection-IsOutcome :
      (cfg : Config) (r : Result String H)
      → parts.load ≡ ok cfg
      → connect parts.gorm parts.to_lower cfg ≡ r
      → IsOutcome parts (with_connection parts cfg r)
  unfolding with_connection failed init_db
  connection-IsOutcome cfg (err e) h1 h2 = fails nothing
  connection-IsOutcome cfg (ok db) h1 h2 =
      database-IsOutcome cfg db (set_up parts.gorm db) h1 h2 (ap (λ r. r >>= set_up parts.gorm) h2)

  config-IsOutcome :
      (r : Result String Config) → parts.load ≡ r → IsOutcome parts (with_config parts r)
  unfolding with_config failed
  config-IsOutcome (err e) h1 = fails nothing
  config-IsOutcome (ok cfg) h1 =
      connection-IsOutcome cfg (connect parts.gorm parts.to_lower cfg) h1 refl

  -- `run` returns 0 only if every call has succeeded and the servers have returned nil while the
  -- database and the two listeners were open, and 1 otherwise. Whichever way it ends, it has closed what
  -- was opened, last opened first, but for one case: if InitDB fails after it has opened the database,
  -- the database is left open.
  pub run-IsOutcome : IsOutcome parts (run parts)
  unfolding run
  run-IsOutcome = config-IsOutcome parts.load refl
