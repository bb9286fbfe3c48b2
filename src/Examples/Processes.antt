-- ===== src/Examples/Processes.antt =====
-- The start of the process and its servers at concrete values.
use policy_manager.Base.{
  ℕ, ◌≡◌, refl, inr, ◌≤◌, ◌<◌, true, false, String, none, some, List, [], ◌∷◌, length, ok, All,
  arith,
}
use policy_manager.Base.Text.{sprintf}
use policy_manager.Main.Database.{Gorm}
use policy_manager.Main.Startup.{Parts, run}
use policy_manager.Main.Startup.Closes.{IsOutcome, run-IsOutcome}
use policy_manager.Main.Servers.{
  Kind, public_api, engine_api, Pc, sending, stopped, Server, is_closed, server_closed,
  run_returned, load_fails, load, shut_down, serve_returns, send_error, accept, here, there, System,
  receive, handle, move, push, close, pop, leave, signal, start_server, run_servers, Reached, start,
  later,
}
use policy_manager.Main.Servers.Effects.{failures, occurrences}
use policy_manager.Main.Servers.Invariant.{head}
use policy_manager.Main.Servers.Returns.{
  HasStopped, send-room, returned-All, returned_nil-signalled,
}
use policy_manager.Main.Servers.Progress.Termination.{
  Eventually, HasReturned, run_servers-Eventually,
}

abbrev both : List Kind
both = public_api ∷ engine_api ∷ []

abbrev lone : List Kind
lone = public_api ∷ []

abbrev server_at : Pc → Server
server_at pc = record {
  kind = public_api;
  pc = pc;
  watching = false;
  closing = false;
  in_flight = 0;
}

abbrev started : List Server → System
started servers = record {
  servers = servers;
  errors = [];
  closed = false;
  signalled = false;
  cancelled = false;
  first_err = none;
  logged = [];
  returned = false;
}

-- The engine's server does not find its document, and is about to send the error.
abbrev unloaded : System
unloaded = started (
    start_server public_api
    ∷ record {
      kind = engine_api;
      pc = sending "failed to load swagger spec: no document";
      watching = false;
      closing = false;
      in_flight = 0;
    }
    ∷ [])

unloaded-Reached : Reached both unloaded
unfolding run_servers sprintf
unloaded-Reached = later start (move (there (here (load_fails "no document" refl))))

send-room_example : (unloaded.closed ≡ false) × (length unloaded.errors < length both)
send-room_example = send-room unloaded-Reached (there (here (send_error _ refl)))

run_servers-Eventually_example : Eventually (length both) HasReturned unloaded
run_servers-Eventually_example = run_servers-Eventually unloaded-Reached (inr (omega arith))

-- One server whose document is not found: its error is sent, received and logged.
abbrev text : String
text = "failed to load swagger spec: no document"

abbrev failed_alone : System
failed_alone = record {
  servers = server_at (stopped (some text)) ∷ [];
  errors = [];
  closed = true;
  signalled = false;
  cancelled = true;
  first_err = some text;
  logged = text ∷ [];
  returned = true;
}

failed_alone-Reached : Reached lone failed_alone
unfolding run_servers receive sprintf
failed_alone-Reached =
    later
      (later
        (later
          (later (later start (move (here (load_fails "no document" refl))))
            (push text (here (send_error text refl)) refl (omega arith)))
          (pop text [] refl refl))
        (close refl refl))
      (leave refl refl refl)

returned-All_example :
    All HasStopped failed_alone.servers
    × ((e : String) → failures e failed_alone.servers ≡ occurrences e failed_alone.logged)
    × (failed_alone.first_err ≡ head failed_alone.logged)
returned-All_example = returned-All failed_alone-Reached refl

-- One server that is stopped by a signal while a request is in flight: runServers returns nil before the
-- request's handler does.
abbrev stopped_alone : System
stopped_alone = record {
  servers =
      record {
        kind = public_api;
        pc = stopped none;
        watching = false;
        closing = true;
        in_flight = 1;
      }
      ∷ [];
  errors = [];
  closed = true;
  signalled = true;
  cancelled = true;
  first_err = none;
  logged = [];
  returned = true;
}

stopped_alone-Reached : Reached lone stopped_alone
unfolding run_servers run_returned
stopped_alone-Reached =
    later
      (later
        (later
          (later
            (later
              (later (later start (move (here (load refl)))) (handle (here (accept refl refl))))
              (signal refl))
            (move (here (shut_down refl refl))))
          (move (here (serve_returns server_closed refl is_closed))))
        (close refl refl))
      (leave refl refl refl)

returned_nil-signalled_example :
    All (λ server. server.pc ≡ stopped none) stopped_alone.servers
    × (1 ≤ length lone → stopped_alone.signalled ≡ true)
returned_nil-signalled_example = returned_nil-signalled stopped_alone-Reached refl refl

-- A start at which every call succeeds, with texts for the database and the listeners.
abbrev gorm : Gorm String ℕ
gorm = record {
  open_db = λ dialector config. ok "open";
  db = λ db. ok 0;
  auto_migrate = λ db. ok tt;
  set_max_idle_conns = λ n pool. pool;
  set_max_open_conns = λ n pool. pool;
  close = λ pool. ok tt;
}

abbrev parts : Parts String ℕ String
parts = record {
  load = ok (record {
    service = record {
      bind_address = "0.0.0.0:8080";
      engine_bind_address = "0.0.0.0:8081";
      log_level = "info";
    };
    database = record {
      type = "sqlite";
      hostname = "localhost";
      port = "5432";
      name = "policies.db";
      user = "admin";
      password = "adminpass";
    };
  });
  gorm = gorm;
  to_lower = λ s. s;
  compile_all = λ db. ok tt;
  listen = λ address. ok address;
  run_servers = λ public_listener engine_listener. none;
}

run-IsOutcome_example : IsOutcome parts (run parts)
run-IsOutcome_example = run-IsOutcome parts
