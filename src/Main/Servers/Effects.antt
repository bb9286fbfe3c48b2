-- ===== src/Main/Servers/Effects.antt =====
-- cmd/policy-manager/main.go (runServers): what a move of one server changes in the counts over all.
use policy_manager.Base.{
  ℕ, ◌+◌, ◌≤◌, ◌≡◌, refl, Bool, true, false, String, some, List, [], ◌∷◌, arith, ◌==◌,
}
use policy_manager.Main.Servers.{
  Pc, starting, serving, sending, stopped, Server, Action, request, send, server_closed,
  serve_error, run_returned, Move, load_fails, load, shut_down, serve_returns, send_error, accept,
  answer, OneMoves, here, there, live, waiting,
}

-- How often `e` stands in a list.
abbrev pub one_if : Bool → ℕ
one_if true = 1
one_if false = 0

abbrev pub occurrences : String → List String → ℕ
occurrences e [] = 0
occurrences e (x ∷ xs) = one_if (x == e) + occurrences e xs

-- Whether Run has returned `e`.
abbrev pub failure : String → Pc → ℕ
failure e (stopped (some x)) = one_if (x == e)
failure e _ = 0

-- How many servers' Run have returned the error `e`.
abbrev pub failures : String → List Server → ℕ
failures e [] = 0
failures e (s ∷ servers) = failure e s.pc + failures e servers

-- How many more steps a server can make, the reception of its error included.
abbrev pub pc_rank : Pc → ℕ
pc_rank starting = 5
pc_rank serving = 3
pc_rank (sending e) = 2
pc_rank (stopped r) = 0

abbrev pub rank : List Server → ℕ
rank [] = 0
rank (s ∷ servers) = (pc_rank s.pc + one_if s.watching) + rank servers

-- What is sent by a move.
abbrev pub sent : Action → String → ℕ
sent (send x) e = one_if (x == e)
sent _ e = 0

abbrev pub is_send : Action → ℕ
is_send (send x) = 1
is_send _ = 0

abbrev pub is_own : Action → ℕ
is_own request = 0
is_own _ = 1

move-failure :
    {d : Bool} {s t : Server} {a : Action} (e : String)
    → Move d s a t
    → failure e t.pc ≡ failure e s.pc + sent a e
unfolding run_returned
move-failure e (load_fails x h) = rw h refl
move-failure e (load h) = rw h refl
move-failure e (shut_down h k) = omega arith
move-failure e (serve_returns server_closed h k) = rw h (omega arith)
move-failure e (serve_returns (serve_error x) h k) = rw h refl
move-failure e (send_error x h) = rw h (omega arith)
move-failure e (accept h k) = omega arith
move-failure e (answer n h) = omega arith

move-live :
    {d : Bool} {s t : Server} {a : Action} → Move d s a t → live t.pc + is_send a ≤ live s.pc
unfolding run_returned
move-live (load_fails x h) = rw h (omega arith)
move-live (load h) = rw h (omega arith)
move-live (shut_down h k) = omega arith
move-live (serve_returns server_closed h k) = rw h (omega arith)
move-live (serve_returns (serve_error x) h k) = rw h (omega arith)
move-live (send_error x h) = rw h (omega arith)
move-live (accept h k) = omega arith
move-live (answer n h) = omega arith

move-rank :
    {d : Bool} {s t : Server} {a : Action}
    → Move d s a t
    → (pc_rank t.pc + one_if t.watching) + (is_own a + is_send a) ≤ pc_rank s.pc + one_if s.watching
unfolding run_returned
move-rank {s = s} (load_fails x h) = rw h (omega arith)
move-rank {s = s} (load h) = rw h (omega arith)
move-rank (shut_down h k) = rw k (omega arith)
move-rank (serve_returns server_closed h k) = rw h (omega arith)
move-rank (serve_returns (serve_error x) h k) = rw h (omega arith)
move-rank (send_error x h) = rw h (omega arith)
move-rank (accept h k) = omega arith
move-rank (answer n h) = omega arith

module _ {d : Bool} {a : Action} where
  pub moves-failures :
      {servers servers' : List Server} (e : String)
      → OneMoves d a servers servers'
      → failures e servers' ≡ failures e servers + sent a e
  moves-failures e (here m) = omega (arith, move-failure e m)
  moves-failures e (there m) = omega (arith, moves-failures e m)

  pub moves-waiting :
      {servers servers' : List Server}
      → OneMoves d a servers servers'
      → waiting servers' + is_send a ≤ waiting servers
  moves-waiting (here m) = omega (arith, move-live m)
  moves-waiting (there m) = omega (arith, moves-waiting m)

  pub moves-rank :
      {servers servers' : List Server}
      → OneMoves d a servers servers'
      → rank servers' + (is_own a + is_send a) ≤ rank servers
  moves-rank (here m) = omega (arith, move-rank m)
  moves-rank (there m) = omega (arith, moves-rank m)
