-- ===== src/Main/Servers/Invariant/Steps.antt =====
-- cmd/policy-manager/main.go (runServers): each step of the goroutines keeps the invariant.
use policy_manager.Base.{
  ℕ, ◌≡◌, refl, sym, ◌∙◌, inl, inr, true, false, String, Option, none, some, List, [], ◌∷◌, ◌++◌,
  length, length-append, All, arith, map,
}
use policy_manager.Main.Servers.{
  Kind, Server, Action, send, OneMoves, waiting, By, System, ctx_done, request, lifecycle, received,
  receive, Step, handle, move, push, close, pop, leave, signal, start_server, run_servers, Reached,
  start, later,
}
use policy_manager.Main.Servers.Effects.{sent, occurrences, failures, moves-failures, moves-waiting}
use policy_manager.Main.Servers.Invariant.{
  head, IsCalledFor, Inv, occurrences-snoc, Cause-IsCalledFor, moves-IsCalledFor, IsWatched,
  moves-IsWatched,
}

move-Inv :
    {capacity : ℕ} (s : System) {servers : List Server}
    → (a : Action) → ((e : String) → sent a e ≡ 0)
    → Inv capacity s
    → OneMoves (ctx_done s) a s.servers servers
    → Inv capacity (record s { servers = servers })
move-Inv s a quiet inv m = record {
  room = omega (arith, inv.room, moves-waiting m);
  counted = λ e. omega (arith, inv.counted e, moves-failures e m, quiet e);
  closed_waited = λ h. omega (arith, inv.closed_waited h, moves-waiting m);
  returned_drained = inv.returned_drained;
  first = inv.first;
  cancels = inv.cancels;
  cancelled_for = inv.cancelled_for;
  called_for = moves-IsCalledFor s inv m;
  watched = moves-IsWatched m inv.watched;
}

push-Inv :
    {capacity : ℕ} (s : System) {servers : List Server} (e : String)
    → Inv capacity s
    → OneMoves (ctx_done s) (send e) s.servers servers
    → Inv capacity (record s { servers = servers; errors = s.errors ++ (e ∷ []) })
push-Inv s e inv m = record {
  room = omega (arith, inv.room, moves-waiting m, length-append s.errors (e ∷ []));
  counted = λ x. omega (arith, inv.counted x, moves-failures x m, occurrences-snoc x s.errors e);
  closed_waited = λ h. omega (arith, inv.closed_waited h, moves-waiting m);
  returned_drained =
      λ h. absurd (omega (arith, inv.closed_waited (inv.returned_drained h).0, moves-waiting m));
  first = inv.first;
  cancels = inv.cancels;
  cancelled_for = inv.cancelled_for;
  called_for = moves-IsCalledFor s inv m;
  watched = moves-IsWatched m inv.watched;
}

-- The three ways in which the rest of the state changes.
close-Inv :
    {capacity : ℕ} (s : System)
    → waiting s.servers ≡ 0
    → Inv capacity s
    → Inv capacity (record s { closed = true })
close-Inv s done inv = record {
  room = inv.room;
  counted = inv.counted;
  closed_waited = λ h. done;
  returned_drained = λ h. (refl, (inv.returned_drained h).1);
  first = inv.first;
  cancels = inv.cancels;
  cancelled_for = inv.cancelled_for;
  called_for = inv.called_for;
  watched = inv.watched;
}

signal-Inv :
    {capacity : ℕ} (s : System) → Inv capacity s → Inv capacity (record s { signalled = true })
signal-Inv s inv = record {
  room = inv.room;
  counted = inv.counted;
  closed_waited = inv.closed_waited;
  returned_drained = inv.returned_drained;
  first = inv.first;
  cancels = inv.cancels;
  cancelled_for = inv.cancelled_for;
  called_for =
      Cause-IsCalledFor s (record s { signalled = true }) (λ c. inl refl) (λ h. h) inv.called_for;
  watched = inv.watched;
}

leave-Inv :
    {capacity : ℕ} (s : System)
    → s.errors ≡ []
    → s.closed ≡ true
    → Inv capacity s
    → Inv capacity (record s { returned = true; cancelled = true })
leave-Inv s drained closed inv = record {
  room = inv.room;
  counted = inv.counted;
  closed_waited = inv.closed_waited;
  returned_drained = λ h. (closed, drained);
  first = inv.first;
  cancels = λ e h. refl;
  cancelled_for = λ h. inl refl;
  called_for =
      Cause-IsCalledFor s (record s { returned = true; cancelled = true }) (λ c. c) (λ h. refl)
        inv.called_for;
  watched = inv.watched;
}

head-snoc-none : (xs : List String) (e : String) → head xs ≡ none → head (xs ++ (e ∷ [])) ≡ some e
head-snoc-none [] e h = refl
head-snoc-none (x ∷ xs) e h = absurd (cc)

head-snoc-some :
    (xs : List String) (e first : String)
    → head xs ≡ some first
    → head (xs ++ (e ∷ [])) ≡ some first
head-snoc-some [] e first h = absurd (cc)
head-snoc-some (x ∷ xs) e first h = h

drained-Inv :
    {capacity : ℕ} (s : System) (e : String) (rest : List String)
    → s.returned ≡ false
    → s.errors ≡ e ∷ rest
    → Inv capacity s
    → (first : Option String) → s.first_err ≡ first
    → Inv capacity (received first e (record s { errors = rest }))
unfolding received
drained-Inv s e rest unreturned nonempty inv none h = record {
  room = let k : length s.errors ≡ length (e ∷ rest) = rw nonempty in omega (arith, inv.room);
  counted = λ x.
      let k : occurrences x s.errors ≡ occurrences x (e ∷ rest) = rw nonempty in
      omega (arith, inv.counted x, occurrences-snoc x s.logged e);
  closed_waited = inv.closed_waited;
  returned_drained = λ k. absurd (cc);
  first = sym (head-snoc-none s.logged e (sym inv.first ∙ h));
  cancels = λ x k. refl;
  cancelled_for = λ k. inr (e, refl);
  called_for =
      Cause-IsCalledFor s (received none e (record s { errors = rest }))
        (λ c. elim c [ inl k ↦ inl k | inr k ↦ inr (e, refl) ]) (λ k. k) inv.called_for;
  watched = inv.watched;
}
drained-Inv s e rest unreturned nonempty inv (some first) h = record {
  room = let k : length s.errors ≡ length (e ∷ rest) = rw nonempty in omega (arith, inv.room);
  counted = λ x.
      let k : occurrences x s.errors ≡ occurrences x (e ∷ rest) = rw nonempty in
      omega (arith, inv.counted x, occurrences-snoc x s.logged e);
  closed_waited = inv.closed_waited;
  returned_drained = λ k. absurd (cc);
  first = h ∙ sym (head-snoc-some s.logged e first (sym inv.first ∙ h));
  cancels = inv.cancels;
  cancelled_for = inv.cancelled_for;
  called_for =
      Cause-IsCalledFor s (received (some first) e (record s { errors = rest })) (λ c. c) (λ k. k)
        inv.called_for;
  watched = inv.watched;
}

step-Inv :
    {capacity : ℕ} {s t : System} {by : By} → Inv capacity s → Step capacity s by t → Inv capacity t
unfolding receive
step-Inv {s = s} inv (handle m) = move-Inv s request (λ e. refl) inv m
step-Inv {s = s} inv (move m) = move-Inv s lifecycle (λ e. refl) inv m
step-Inv {s = s} inv (push e m unreturned room) = push-Inv s e inv m
step-Inv {s = s} inv (close unreturned done) = close-Inv s done inv
step-Inv {s = s} inv (pop e rest running nonempty) =
    drained-Inv s e rest running nonempty inv s.first_err refl
step-Inv {s = s} inv (leave running drained closed) = leave-Inv s drained closed inv
step-Inv {s = s} inv (signal h) = signal-Inv s inv

waiting-start : (kinds : List Kind) → waiting (map start_server kinds) ≡ length kinds
waiting-start [] = refl
waiting-start (k ∷ kinds) = omega (arith, waiting-start kinds)

failures-start : (e : String) (kinds : List Kind) → failures e (map start_server kinds) ≡ 0
failures-start e [] = refl
failures-start e (k ∷ kinds) = omega (arith, failures-start e kinds)

IsCalledFor-start : (kinds : List Kind) (s : System) → All (IsCalledFor s) (map start_server kinds)
IsCalledFor-start [] s = tt
IsCalledFor-start (k ∷ kinds) s = ((λ h. absurd (cc), λ h. absurd (cc)), IsCalledFor-start kinds s)

IsWatched-start : (kinds : List Kind) → All IsWatched (map start_server kinds)
IsWatched-start [] = tt
IsWatched-start (k ∷ kinds) = (λ h. absurd (cc), IsWatched-start kinds)

run_servers-Inv : (kinds : List Kind) → Inv (length kinds) (run_servers kinds)
unfolding run_servers
run_servers-Inv kinds = record {
  room = omega (arith, waiting-start kinds);
  counted = λ e. omega (arith, failures-start e kinds);
  closed_waited = λ h. absurd (cc);
  returned_drained = λ h. absurd (cc);
  first = refl;
  cancels = λ e h. absurd (cc);
  cancelled_for = λ h. absurd (cc);
  called_for = IsCalledFor-start kinds (run_servers kinds);
  watched = IsWatched-start kinds;
}

pub Reached-Inv : {kinds : List Kind} {s : System} → Reached kinds s → Inv (length kinds) s
Reached-Inv {kinds} start = run_servers-Inv kinds
Reached-Inv (later reached step) = step-Inv (Reached-Inv reached) step
