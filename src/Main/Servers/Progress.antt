-- ===== src/Main/Servers/Progress.antt =====
-- cmd/policy-manager/main.go (runServers): the steps that are left, and that one is possible.
pub mod Enabled
pub mod Termination
use policy_manager.Base.{
  ◌==◌, eq_refl, ◌||◌, Bool-cases, ℕ, suc, ◌+◌, ◌≤◌, ◌<◌, ◌≡◌, refl, sym, ap, ◌∙◌, ◌⊎◌, inl, inr,
  Bool, true, false, not, String, Option, none, some, List, [], ◌∷◌, ◌++◌, length, length-append,
  All, arith,
}
use policy_manager.Main.Servers.{
  Pc, starting, serving, sending, stopped, Server, Action, request, lifecycle, send, is_closed,
  is_broken, server_closed, serve_error, run_returned, Move, load_fails, load, shut_down,
  serve_returns, send_error, accept, answer, OneMoves, here, there, live, waiting, By, a_request,
  a_goroutine, the_system, System, ctx_done, received, receive, Step, handle, move, push, close,
  pop, leave, signal,
}
use policy_manager.Main.Servers.Effects.{
  one_if, occurrences, failure, failures, rank, is_send, is_own, moves-rank,
}
use policy_manager.Main.Servers.Invariant.{head, IsWatched, Inv}

-- A bound on the steps that are left, those of the requests not counted.
abbrev pub measure : System → ℕ
measure s =
    rank s.servers
    + length s.errors
    + (one_if (not s.closed) + one_if (not s.signalled) + one_if (not s.returned))

abbrev pub cost : By → ℕ
cost a_request = 0
cost _ = 1

received-measure :
    (f : Option String) (e : String) (s : System) → measure (received f e s) ≡ measure s
unfolding received
received-measure none e s = refl
received-measure (some f) e s = refl

pub step-measure :
    {n : ℕ} {s t : System} {by : By} → Step n s by t → measure t + cost by ≤ measure s
unfolding receive
step-measure (handle m) = omega (arith, moves-rank m)
step-measure (move m) = omega (arith, moves-rank m)
step-measure {s = s} (push e m h k) = omega (arith, moves-rank m, length-append s.errors (e ∷ []))
step-measure {s = s} (close h k) = rw h (omega arith)
step-measure {s = s} (pop e rest h k) =
    let l : length s.errors ≡ length (e ∷ rest) = rw k in
    omega (arith, l, received-measure s.first_err e (record s { errors = rest }))
step-measure (leave h k l) = rw h (omega arith)
step-measure (signal h) = rw h (omega arith)

-- A server that has not stopped can make a move when the context is done.
abbrev pub CanMove : Bool → List Server → Type 0
CanMove d servers =
    ((servers' : List Server) × OneMoves d lifecycle servers servers')
    ⊎ ((e : String) × (servers' : List Server) × OneMoves d (send e) servers servers')

later-CanMove :
    {d : Bool} {s : Server} {servers : List Server} → CanMove d servers → CanMove d (s ∷ servers)
later-CanMove (inl (servers', m)) = inl (_, there m)
later-CanMove (inr (e, servers', m)) = inr (e, _, there m)

serving-CanMove :
    (s : Server) (servers : List Server)
    → s.pc ≡ serving
    → IsWatched s
    → (closing : Bool) → s.closing ≡ closing
    → CanMove true (s ∷ servers)
serving-CanMove s servers h w false k = inl (_, here (shut_down refl (w h k)))
serving-CanMove s servers h w true k =
    inl (_, here (serve_returns server_closed h (rw k is_closed)))

pc-CanMove :
    (s : Server) (servers : List Server)
    → IsWatched s
    → (1 ≤ waiting servers → CanMove true servers)
    → 1 ≤ waiting (s ∷ servers)
    → (pc : Pc) → s.pc ≡ pc
    → CanMove true (s ∷ servers)
pc-CanMove s servers w next l starting h = inl (_, here (load h))
pc-CanMove s servers w next l serving h = serving-CanMove s servers h w s.closing refl
pc-CanMove s servers w next l (sending e) h = inr (e, _, here (send_error e h))
pc-CanMove s servers w next l (stopped r) h =
    let k : live s.pc ≡ 0 = rw h refl in later-CanMove (next (omega (arith, l, k)))

pub can_move :
    (servers : List Server) → All IsWatched servers → 1 ≤ waiting servers → CanMove true servers
can_move [] w l = absurd (omega (arith, l))
can_move (s ∷ servers) (w, ws) l = pc-CanMove s servers w (can_move servers ws) l s.pc refl

-- How many servers' Run have failed: the error is still to be sent, or has been.
abbrev pub broken : Pc → ℕ
broken (sending e) = 1
broken (stopped (some e)) = 1
broken _ = 0

abbrev pub broken_servers : List Server → ℕ
broken_servers [] = 0
broken_servers (s ∷ servers) = broken s.pc + broken_servers servers

move-broken : {d : Bool} {s t : Server} {a : Action} → Move d s a t → broken s.pc ≤ broken t.pc
move-broken (load_fails e h) = rw h (omega arith)
move-broken (load h) = rw h (omega arith)
move-broken (shut_down h k) = omega arith
move-broken (serve_returns r h k) = rw h (omega arith)
move-broken (send_error e h) = rw h (omega arith)
move-broken (accept h k) = omega arith
move-broken (answer n h) = omega arith

pub moves-broken :
    {d : Bool} {a : Action} {servers servers' : List Server}
    → OneMoves d a servers servers'
    → broken_servers servers ≤ broken_servers servers'
moves-broken (here m) = omega (arith, move-broken m)
moves-broken (there m) = omega (arith, moves-broken m)

-- runServers is to return: its context is done, or a server has failed.
abbrev pub IsEnding : System → Type 0
IsEnding s = (ctx_done s ≡ true) ⊎ (1 ≤ broken_servers s.servers)

-- A failed server still sends its error, or has returned it.
abbrev pub Broke : Bool → List Server → Type 0
Broke d servers =
    ((e : String) × (servers' : List Server) × OneMoves d (send e) servers servers')
    ⊎ ((e : String) × (1 ≤ failures e servers))

later-Broke :
    {d : Bool} {s : Server} {servers : List Server} → Broke d servers → Broke d (s ∷ servers)
later-Broke (inl (e, servers', m)) = inl (e, _, there m)
later-Broke (inr (e, h)) = inr (e, omega (arith, h))

pc-Broke :
    {d : Bool} (s : Server) (servers : List Server)
    → (1 ≤ broken_servers servers → Broke d servers)
    → 1 ≤ broken s.pc + broken_servers servers
    → (pc : Pc) → s.pc ≡ pc
    → Broke d (s ∷ servers)
pc-Broke s servers next l (sending e) h = inl (e, _, here (send_error e h))
pc-Broke s servers next l (stopped (some e)) h =
    let k : failure e s.pc ≡ 1 = rw h (rw (eq_refl e) refl) in inr (e, omega (arith, k))
pc-Broke s servers next l (stopped none) h =
    let k : broken s.pc ≡ 0 = rw h refl in later-Broke (next (omega (arith, l, k)))
pc-Broke s servers next l starting h =
    let k : broken s.pc ≡ 0 = rw h refl in later-Broke (next (omega (arith, l, k)))
pc-Broke s servers next l serving h =
    let k : broken s.pc ≡ 0 = rw h refl in later-Broke (next (omega (arith, l, k)))

pub find_broken : {d : Bool} (servers : List Server) → 1 ≤ broken_servers servers → Broke d servers
find_broken [] l = absurd (omega (arith, l))
find_broken (s ∷ servers) l = pc-Broke s servers (find_broken servers) l s.pc refl
