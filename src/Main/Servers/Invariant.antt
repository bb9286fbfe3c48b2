-- ===== src/Main/Servers/Invariant.antt =====
-- cmd/policy-manager/main.go (runServers): what every reachable state of the goroutines satisfies.
pub mod Steps
use policy_manager.Base.{
  ◌==◌, ◌||◌, Bool-cases, ℕ, suc, ◌+◌, ◌≤◌, ◌≡◌, refl, sym, ap, ◌∙◌, ◌⊎◌, inl, inr, Bool, true,
  false, String, Option, none, some, List, [], ◌∷◌, ◌++◌, length, length-append, All, arith, map,
}
use policy_manager.Main.Servers.{
  Kind, Pc, serving, stopped, Server, Action, send, is_closed, is_broken, server_closed,
  serve_error, run_returned, Serves, live, Move, load_fails, load, shut_down, serve_returns,
  send_error, accept, answer, OneMoves, here, there, waiting, System, ctx_done, received, receive,
  Step, handle, move, push, close, pop, leave, signal, start_server, run_servers, Reached, start,
  later,
}
use policy_manager.Main.Servers.Effects.{
  sent, one_if, occurrences, failures, moves-failures, moves-waiting,
}

abbrev pub head {ℓ} : {A : Type ℓ} → List A → Option A
head [] = none
head (x ∷ xs) = some x

-- What has made the context done: a signal, or the first error.
abbrev pub Cause : System → Type 0
Cause s = (s.signalled ≡ true) ⊎ ((e : String) × (s.first_err ≡ some e))

-- Shutdown is called for a cause or after the return, and a server stops without an error for a cause.
abbrev pub IsCalledFor : System → Server → Type 0
IsCalledFor s server =
    (server.pc ≡ stopped none → Cause s) × (server.closing ≡ true → (s.returned ≡ true) ⊎ Cause s)

-- Shutdown has been called, or will be when the context is done.
abbrev pub IsWatched : Server → Type 0
IsWatched server = server.pc ≡ serving → server.closing ≡ false → server.watching ≡ true

pub record Inv (capacity : ℕ) (s : System) : Type 0 where
  -- The buffer has room for the error of every goroutine that is not done.
  pub room : length s.errors + waiting s.servers ≤ capacity
  -- Each error that Run returned was sent, and is in the buffer or in the log.
  pub counted :
      (e : String) → failures e s.servers ≡ occurrences e s.errors + occurrences e s.logged
  pub closed_waited : s.closed ≡ true → waiting s.servers ≡ 0
  pub returned_drained : s.returned ≡ true → (s.closed ≡ true) × (s.errors ≡ [])
  pub first : s.first_err ≡ head s.logged
  pub cancels : (e : String) → s.first_err ≡ some e → s.cancelled ≡ true
  pub cancelled_for :
      s.cancelled ≡ true → (s.returned ≡ true) ⊎ ((e : String) × (s.first_err ≡ some e))
  pub called_for : All (IsCalledFor s) s.servers
  pub watched : All IsWatched s.servers

pub occurrences-snoc :
    (e : String) (xs : List String) (x : String)
    → occurrences e (xs ++ (x ∷ [])) ≡ occurrences e xs + one_if (x == e)
occurrences-snoc e [] x = omega arith
occurrences-snoc e (y ∷ xs) x = omega (arith, occurrences-snoc e xs x)

pub map-All {ℓ κ μ} :
    {A : Type ℓ} {P : A → Type κ} {Q : A → Type μ} (f : (x : A) → P x → Q x) (xs : List A)
    → All P xs
    → All Q xs
map-All f [] h = tt
map-All f (x ∷ xs) h = (f x h.0, map-All f xs h.1)

unsignalled : (a b : Bool) → (a || b) ≡ true → a ≡ false → b ≡ true
unsignalled false b h k = h
unsignalled true b h k = absurd (cc)

-- The context is done for a cause, unless runServers has returned.
done-Cause :
    {capacity : ℕ} (s : System) → Inv capacity s → ctx_done s ≡ true → (s.returned ≡ true) ⊎ Cause s
done-Cause s inv h = elim (Bool-cases s.signalled) [
  | inl k ↦ inr (inl k)
  | inr k ↦ elim (inv.cancelled_for (unsignalled _ _ h k)) [ inl r ↦ inl r | inr c ↦ inr (inr c) ]
]

Serves-closed : {closing : Bool} → Serves closing server_closed → closing ≡ true
Serves-closed is_closed = refl

-- A server that has not stopped shows that runServers has not returned.
not_returned :
    {capacity : ℕ} (s : System) {A : Type 0}
    → Inv capacity s
    → 1 ≤ waiting s.servers
    → (s.returned ≡ true) ⊎ A
    → A
not_returned s inv l (inr a) = a
not_returned s inv l (inl r) = absurd (omega (arith, inv.closed_waited (inv.returned_drained r).0))

move-IsCalledFor :
    (s : System) {d : Bool} {x y : Server} {a : Action}
    → (d ≡ true → (s.returned ≡ true) ⊎ Cause s)
    → (1 ≤ live x.pc → (s.returned ≡ true) ⊎ Cause s → Cause s)
    → Move d x a y
    → IsCalledFor s x
    → IsCalledFor s y
unfolding run_returned
move-IsCalledFor s done running (load_fails e h) c = (λ k. absurd (cc), c.1)
move-IsCalledFor s done running (load h) c = (λ k. absurd (cc), c.1)
move-IsCalledFor s done running (shut_down h k) c = (c.0, λ l. done h)
move-IsCalledFor s done running (serve_returns server_closed h k) c =
    (λ l. running (rw h (omega arith)) (c.1 (Serves-closed k)), c.1)
move-IsCalledFor s done running (serve_returns (serve_error e) h k) c = (λ l. absurd (cc), c.1)
move-IsCalledFor s done running (send_error e h) c = (λ k. absurd (cc), c.1)
move-IsCalledFor s done running (accept h k) c = c
move-IsCalledFor s done running (answer n h) c = c

moves-All :
    (s : System) {d : Bool} {a : Action} {servers servers' : List Server}
    → (d ≡ true → (s.returned ≡ true) ⊎ Cause s)
    → (1 ≤ waiting servers → (s.returned ≡ true) ⊎ Cause s → Cause s)
    → OneMoves d a servers servers'
    → All (IsCalledFor s) servers
    → All (IsCalledFor s) servers'
moves-All s done running (here m) h =
    (move-IsCalledFor s done (λ l. running (omega arith)) m h.0, h.1)
moves-All s done running (there m) h = (h.0, moves-All s done (λ l. running (omega arith)) m h.1)

pub moves-IsCalledFor :
    {capacity : ℕ} (s : System) {a : Action} {servers : List Server}
    → Inv capacity s
    → OneMoves (ctx_done s) a s.servers servers
    → All (IsCalledFor s) servers
moves-IsCalledFor s inv m = moves-All s (done-Cause s inv) (not_returned s inv) m inv.called_for

pub Cause-IsCalledFor :
    (s t : System)
    → (Cause s → Cause t)
    → (s.returned ≡ true → t.returned ≡ true)
    → All (IsCalledFor s) s.servers
    → All (IsCalledFor t) s.servers
Cause-IsCalledFor s t cause kept h =
    map-All
      (λ x c.
        (λ k. cause (c.0 k), λ k. elim (c.1 k) [ inl r ↦ inl (kept r) | inr e ↦ inr (cause e) ]))
      s.servers h

move-IsWatched : {d : Bool} {x y : Server} {a : Action} → Move d x a y → IsWatched x → IsWatched y
unfolding run_returned
move-IsWatched (load_fails e h) w = λ k l. absurd (cc)
move-IsWatched (load h) w = λ k l. refl
move-IsWatched (shut_down h k) w = λ k l. absurd (cc)
move-IsWatched (serve_returns server_closed h k) w = λ k l. absurd (cc)
move-IsWatched (serve_returns (serve_error e) h k) w = λ k l. absurd (cc)
move-IsWatched (send_error e h) w = λ k l. absurd (cc)
move-IsWatched (accept h k) w = w
move-IsWatched (answer n h) w = w

pub moves-IsWatched :
    {d : Bool} {a : Action} {servers servers' : List Server}
    → OneMoves d a servers servers'
    → All IsWatched servers
    → All IsWatched servers'
moves-IsWatched (here m) h = (move-IsWatched m h.0, h.1)
moves-IsWatched (there m) h = (h.0, moves-IsWatched m h.1)
