-- ===== src/Main/Servers.antt =====
-- cmd/policy-manager/main.go (runServers) with the Run of internal/apiserver/server.go and
-- internal/engineserver/server.go: the goroutines, interleaved in any order. The errors of net/http and
-- of the OpenAPI loader, the requests and the signals are the environment's moves.
pub mod Invariant
pub mod Effects
pub mod Returns
pub mod Progress
use policy_manager.Base.{
  ℕ, suc, ◌+◌, ◌<◌, ◌≡◌, Bool, true, false, ◌||◌, String, Option, none, some, List, [], ◌∷◌, ◌++◌,
  map, length,
}
use policy_manager.Base.Text.{sprintf}

-- The two servers that main starts.
pub data Kind : Type 0 where
  public_api engine_api : Kind

-- What `srv.Serve` returns, which is never nil: http.ErrServerClosed, or another error.
pub data ServeError : Type 0 where
  server_closed : ServeError
  serve_error : String → ServeError

abbrev pub serve_prefix : Kind → String
serve_prefix public_api = "failed to serve policies API server: "
serve_prefix engine_api = "failed to serve engine API server: "

-- What `Run` returns, none for nil: after GetSwagger failed, and after Serve returned.
abbrev pub load_failed : String → Option String
load_failed e = some (sprintf ("failed to load swagger spec: " ∷ e ∷ []))

unfoldable pub run_returned : Kind → ServeError → Option String
run_returned kind server_closed = none
run_returned kind (serve_error e) = some (sprintf (serve_prefix kind ∷ e ∷ []))

-- Where the goroutine of a server is: before Serve, in Serve, before the send of Run's error, and after
-- `wg.Done()`, with what Run returned.
pub data Pc : Type 0 where
  starting serving : Pc
  sending : String → Pc
  stopped : Option String → Pc

-- The goroutine goes on after Run has returned: `if err != nil { errChan <- err }`.
abbrev pub after_run : Option String → Pc
after_run none = stopped none
after_run (some e) = sending e

-- `watching` is that the second goroutine of Run waits for the context, `closing` that it has called
-- Shutdown; `in_flight` counts the requests whose handlers have not returned.
pub record Server : Type 0 where
  pub kind : Kind
  pub pc : Pc
  pub watching : Bool
  pub closing : Bool
  pub in_flight : ℕ

pub data Action : Type 0 where
  request lifecycle : Action
  send : String → Action

-- Serve returns http.ErrServerClosed once Shutdown has been called, and another error before.
pub data Serves : Bool → ServeError → Type 0 where
  is_closed : Serves true server_closed
  is_broken : (e : String) → Serves false (serve_error e)

-- A move of one server; `ctx_done` is that the context is cancelled.
pub data Move (ctx_done : Bool) (s : Server) : Action → Server → Type 0 where
  load_fails :
      (e : String)
      → s.pc ≡ starting
      → Move ctx_done s lifecycle (record s { pc = after_run (load_failed e) })
  load : s.pc ≡ starting → Move ctx_done s lifecycle (record s { pc = serving; watching = true })
  shut_down :
      ctx_done ≡ true
      → s.watching ≡ true
      → Move ctx_done s lifecycle (record s { watching = false; closing = true })
  serve_returns :
      (r : ServeError)
      → s.pc ≡ serving
      → Serves s.closing r
      → Move ctx_done s lifecycle (record s { pc = after_run (run_returned s.kind r) })
  send_error :
      (e : String)
      → s.pc ≡ sending e
      → Move ctx_done s (send e) (record s { pc = stopped (some e) })
  accept :
      s.pc ≡ serving
      → s.closing ≡ false
      → Move ctx_done s request (record s { in_flight = suc s.in_flight })
  answer : (n : ℕ) → s.in_flight ≡ suc n → Move ctx_done s request (record s { in_flight = n })

-- One of the servers moves.
pub data OneMoves (ctx_done : Bool) (a : Action) : List Server → List Server → Type 0 where
  here :
      {s t : Server} {rest : List Server}
      → Move ctx_done s a t
      → OneMoves ctx_done a (s ∷ rest) (t ∷ rest)
  there :
      {s : Server} {rest rest' : List Server}
      → OneMoves ctx_done a rest rest'
      → OneMoves ctx_done a (s ∷ rest) (s ∷ rest')

-- The counter of the WaitGroup.
abbrev pub live : Pc → ℕ
live (stopped r) = 0
live _ = 1

abbrev pub waiting : List Server → ℕ
waiting [] = 0
waiting (s ∷ servers) = live s.pc + waiting servers

-- The state of runServers: `errors` is the buffer of errChan, `signalled` that SIGINT or SIGTERM has
-- arrived, `cancelled` that `cancel()` has been called, and `logged` the lines "Server error".
pub record System : Type 0 where
  pub servers : List Server
  pub errors : List String
  pub closed : Bool
  pub signalled : Bool
  pub cancelled : Bool
  pub first_err : Option String
  pub logged : List String
  pub returned : Bool

abbrev pub ctx_done : System → Bool
ctx_done s = s.signalled || s.cancelled

-- One turn of the loop over errChan.
received : Option String → String → System → System
received none e s = record s { first_err = some e; cancelled = true; logged = s.logged ++ (e ∷ []) }
received (some first) e s = record s { logged = s.logged ++ (e ∷ []) }

unfoldable pub receive : String → System → System
unfolding received
receive e s = received s.first_err e s

-- Who makes a step: a request, one of the goroutines, or the operating system.
pub data By : Type 0 where
  a_request a_goroutine the_system : By

-- `capacity` is that of errChan.
pub data Step (capacity : ℕ) (s : System) : By → System → Type 0 where
  handle :
      {servers : List Server}
      → OneMoves (ctx_done s) request s.servers servers
      → Step capacity s a_request (record s { servers = servers })
  move :
      {servers : List Server}
      → OneMoves (ctx_done s) lifecycle s.servers servers
      → Step capacity s a_goroutine (record s { servers = servers })
  push :
      {servers : List Server} (e : String)
      → OneMoves (ctx_done s) (send e) s.servers servers
      → s.closed ≡ false
      → length s.errors < capacity
      → Step capacity s a_goroutine (record s { servers = servers; errors = s.errors ++ (e ∷ []) })
  close :
      s.closed ≡ false
      → waiting s.servers ≡ 0
      → Step capacity s a_goroutine (record s { closed = true })
  pop :
      (e : String) (rest : List String)
      → s.returned ≡ false
      → s.errors ≡ e ∷ rest
      → Step capacity s a_goroutine (receive e (record s { errors = rest }))
  leave :
      s.returned ≡ false
      → s.errors ≡ []
      → s.closed ≡ true
      → Step capacity s a_goroutine (record s { returned = true; cancelled = true })
  signal : s.signalled ≡ false → Step capacity s the_system (record s { signalled = true })

abbrev pub start_server : Kind → Server
start_server kind = record {
  kind = kind;
  pc = starting;
  watching = false;
  closing = false;
  in_flight = 0;
}

-- runServers after its goroutines have been started.
unfoldable pub run_servers : List Kind → System
run_servers kinds = record {
  servers = map start_server kinds;
  errors = [];
  closed = false;
  signalled = false;
  cancelled = false;
  first_err = none;
  logged = [];
  returned = false;
}

pub data Reached (kinds : List Kind) : System → Type 0 where
  start : Reached kinds (run_servers kinds)
  later : {s t : System} {by : By} → Reached kinds s → Step (length kinds) s by t → Reached kinds t
