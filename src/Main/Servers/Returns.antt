-- ===== src/Main/Servers/Returns.antt =====
-- cmd/policy-manager/main.go (runServers): what holds when it sends an error, and when it returns.
use policy_manager.Base.{
  ◌==◌, eq_refl, ℕ, ◌<◌, ◌≤◌, ◌≡◌, refl, sym, ap, ◌∙◌, inl, inr, Bool, true, false, String, Option,
  none, some, List, [], ◌∷◌, length, map, All, Bool-cases, arith,
}
use policy_manager.Main.Servers.{
  Kind, starting, serving, sending, Pc, stopped, Server, Action, send, OneMoves, here, there, live,
  waiting, System, ctx_done, By, Step, handle, move, push, close, pop, leave, signal, received,
  receive, start_server, run_servers, Reached, start, later,
}
use policy_manager.Main.Servers.Effects.{one_if, occurrences, failure, failures, moves-waiting}
use policy_manager.Main.Servers.Invariant.{head, IsCalledFor}
use policy_manager.Main.Servers.Invariant.Steps.{Reached-Inv}

module _ {kinds : List Kind} {s : System} where
  -- In every reachable state in which a goroutine of runServers is about to send the error of its
  -- server, the channel is open and its buffer has room: the send neither panics nor blocks.
  pub send-room :
      {e : String} {servers : List Server}
      → Reached kinds s
      → OneMoves (ctx_done s) (send e) s.servers servers
      → (s.closed ≡ false) × (length s.errors < length kinds)
  send-room reached m = (
    elim (Bool-cases s.closed) [
      | inl h ↦ absurd (omega (arith, (Reached-Inv reached).closed_waited h, moves-waiting m))
      | inr h ↦ h
    ],
    omega (arith, (Reached-Inv reached).room, moves-waiting m),
  )

-- Run has returned.
abbrev pub HasStopped : Server → Type 0
HasStopped server = (r : Option String) × (server.pc ≡ stopped r)

pc-HasStopped : (pc : Pc) → live pc ≡ 0 → (r : Option String) × (pc ≡ stopped r)
pc-HasStopped starting h = absurd (omega (arith, h))
pc-HasStopped serving h = absurd (omega (arith, h))
pc-HasStopped (sending e) h = absurd (omega (arith, h))
pc-HasStopped (stopped r) h = (r, refl)

All-HasStopped : (servers : List Server) → waiting servers ≡ 0 → All HasStopped servers
All-HasStopped [] h = tt
All-HasStopped (s ∷ servers) h =
    (pc-HasStopped s.pc (omega (arith, h)), All-HasStopped servers (omega (arith, h)))

no_failure : (e : String) (xs : List String) → head xs ≡ none → occurrences e xs ≡ 0
no_failure e [] h = refl
no_failure e (x ∷ xs) h = absurd (cc)

eq-one : (e : String) → one_if (e == e) ≡ 1
eq-one e = rw (eq_refl e) refl

All-nil :
    (servers : List Server)
    → All HasStopped servers
    → ((e : String) → failures e servers ≡ 0)
    → All (λ x. x.pc ≡ stopped none) servers
All-nil [] h quiet = tt
All-nil (x ∷ servers) ((none, h), k) quiet = (h, All-nil servers k (λ e. omega (arith, quiet e)))
All-nil (x ∷ servers) ((some e, h), k) quiet =
    let f : failure e x.pc ≡ 1 = rw h (eq-one e) in absurd (omega (arith, quiet e, f))

module _ {kinds : List Kind} {s : System} where
  -- In every reachable state in which runServers has returned, Run of every server has returned, each
  -- error that one of them returned has been received and logged, as many times as it was returned, and
  -- the error that runServers returns is the first one received, nil if there was none.
  pub returned-All :
      Reached kinds s
      → s.returned ≡ true
      → All HasStopped s.servers
        × ((e : String) → failures e s.servers ≡ occurrences e s.logged)
        × (s.first_err ≡ head s.logged)
  returned-All reached h =
      let inv = Reached-Inv reached in
      let (closed, drained) = inv.returned_drained h in
      (
        All-HasStopped s.servers (inv.closed_waited closed),
        λ e. let k : occurrences e s.errors ≡ 0 = rw drained in omega (arith, inv.counted e, k),
        inv.first,
      )

moves-length :
    {d : Bool} {a : Action} {servers servers' : List Server}
    → OneMoves d a servers servers'
    → length servers' ≡ length servers
moves-length (here m) = omega arith
moves-length (there m) = omega (arith, moves-length m)

received-servers :
    (f : Option String) (e : String) (s : System) → (received f e s).servers ≡ s.servers
unfolding received
received-servers none e s = refl
received-servers (some f) e s = refl

step-length : {n : ℕ} {s t : System} {by : By} → Step n s by t → length t.servers ≡ length s.servers
unfolding receive
step-length (handle m) = moves-length m
step-length (move m) = moves-length m
step-length (push e m h k) = moves-length m
step-length (close h k) = refl
step-length {s = s} (pop e rest h k) =
    ap length (received-servers s.first_err e (record s { errors = rest }))
step-length (leave h k l) = refl
step-length (signal h) = refl

started-length : (kinds : List Kind) → length (map start_server kinds) ≡ length kinds
started-length [] = refl
started-length (k ∷ kinds) = omega (arith, started-length kinds)

Reached-length :
    {kinds : List Kind} {s : System} → Reached kinds s → length s.servers ≡ length kinds
unfolding run_servers
Reached-length {kinds} start = started-length kinds
Reached-length (later reached step) = step-length step ∙ Reached-length reached

called_for-signalled :
    (s : System) (servers : List Server)
    → s.first_err ≡ none
    → 1 ≤ length servers
    → All (λ x. x.pc ≡ stopped none) servers
    → All (IsCalledFor s) servers
    → s.signalled ≡ true
called_for-signalled s [] h k nil c = absurd (omega (arith, k))
called_for-signalled s (x ∷ servers) h k nil c = elim (c.0.0 nil.0) [
  | inl signalled ↦ signalled
  | inr (e, f) ↦ absurd (cc)
]

module _ {kinds : List Kind} {s : System} where
  -- If runServers has returned nil in a reachable state, Run of every server has returned nil, and,
  -- unless it was given no server, SIGINT or SIGTERM has arrived: the process does not end with 0 by
  -- itself.
  pub returned_nil-signalled :
      Reached kinds s
      → s.returned ≡ true
      → s.first_err ≡ none
      → All (λ server. server.pc ≡ stopped none) s.servers × (1 ≤ length kinds → s.signalled ≡ true)
  returned_nil-signalled reached h k =
      let (stopped_all, counted, first) = returned-All reached h in
      let nil =
        All-nil s.servers stopped_all
          (λ e. omega (arith, counted e, no_failure e s.logged (sym first ∙ k))) in
      (
        nil,
        λ nonempty.
            called_for-signalled s s.servers k (omega (arith, nonempty, Reached-length reached)) nil
              (Reached-Inv reached).called_for,
      )
