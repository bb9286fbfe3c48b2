-- ===== src/Main/Servers/Progress/Enabled.antt =====
-- cmd/policy-manager/main.go (runServers): while it is to return, one of its goroutines can make a step.
use policy_manager.Base.{
  ◌||◌, Bool-cases, eqb, ℕ, ◌≤◌, ◌≡◌, refl, ◌∙◌, ◌⊎◌, inl, inr, Bool, true, false, String, some,
  List, [], ◌∷◌, arith,
}
use policy_manager.Main.Servers.{
  Server, send, OneMoves, waiting, a_goroutine, System, ctx_done, Step, move, push, close, pop,
  leave,
}
use policy_manager.Main.Servers.Effects.{occurrences, failures, moves-waiting}
use policy_manager.Main.Servers.Invariant.{head, Inv}
use policy_manager.Main.Servers.Progress.{CanMove, can_move, IsEnding, Broke, find_broken}

abbrev pub CanStep : ℕ → System → Type 0
CanStep n s = (t : System) × Step n s a_goroutine t

List-cases {ℓ} :
    {A : Type ℓ} (xs : List A) → (xs ≡ []) ⊎ ((x : A) × (rest : List A) × (xs ≡ x ∷ rest))
List-cases [] = inl refl
List-cases (x ∷ xs) = inr (x, xs, refl)

push-CanStep :
    {n : ℕ} (s : System) (e : String) {servers : List Server}
    → Inv n s
    → s.closed ≡ false
    → OneMoves (ctx_done s) (send e) s.servers servers
    → CanStep n s
push-CanStep s e inv unclosed m = (_, push e m unclosed (omega (arith, inv.room, moves-waiting m)))

done-CanStep :
    {n : ℕ} (s : System)
    → Inv n s
    → s.closed ≡ false
    → ctx_done s ≡ true
    → CanMove true s.servers
    → CanStep n s
done-CanStep s inv unclosed h (inl (servers, m)) = (_, move {servers = servers} (rw h m))
done-CanStep s inv unclosed h (inr (e, servers, m)) =
    push-CanStep s e {servers = servers} inv unclosed (rw h m)

logged-head :
    (e : String) (xs : List String) → 1 ≤ occurrences e xs → (x : String) × (head xs ≡ some x)
logged-head e [] h = absurd (omega (arith, h))
logged-head e (x ∷ xs) h = (x, refl)

pub done-or : (a b : Bool) → b ≡ true → (a || b) ≡ true
done-or true b h = refl
done-or false b h = h

-- A failure that has been received has cancelled the context.
failed-done :
    {n : ℕ} (s : System) (e : String)
    → Inv n s
    → s.errors ≡ []
    → 1 ≤ failures e s.servers
    → ctx_done s ≡ true
failed-done s e inv drained h =
    let k : occurrences e s.errors ≡ 0 = rw drained refl in
    let (x, first) = logged-head e s.logged (omega (arith, h, k, inv.counted e)) in
    done-or s.signalled s.cancelled (inv.cancels x (inv.first ∙ first))

broken-CanStep :
    {n : ℕ} (s : System)
    → Inv n s
    → s.closed ≡ false
    → s.errors ≡ []
    → (ctx_done s ≡ true → CanStep n s)
    → Broke (ctx_done s) s.servers
    → CanStep n s
broken-CanStep s inv unclosed drained done (inl (e, servers, m)) = push-CanStep s e inv unclosed m
broken-CanStep s inv unclosed drained done (inr (e, h)) = done (failed-done s e inv drained h)

unclosed-CanStep :
    {n : ℕ} (s : System)
    → Inv n s
    → s.closed ≡ false
    → s.errors ≡ []
    → 1 ≤ waiting s.servers
    → IsEnding s
    → CanStep n s
unclosed-CanStep s inv unclosed drained l (inl h) =
    done-CanStep s inv unclosed h (can_move s.servers inv.watched l)
unclosed-CanStep s inv unclosed drained l (inr h) =
    broken-CanStep s inv unclosed drained
      (λ k. done-CanStep s inv unclosed k (can_move s.servers inv.watched l))
      (find_broken s.servers h)

pub ending-CanStep : {n : ℕ} (s : System) → Inv n s → s.returned ≡ false → IsEnding s → CanStep n s
ending-CanStep s inv running ending = elim (List-cases s.errors) [
  | inr (e, rest, h) ↦ (_, pop e rest running h)
  | inl drained ↦ elim (Bool-cases s.closed) [
    | inl h ↦ (_, leave running drained h)
    | inr h ↦ elim (Bool-cases (eqb (waiting s.servers) 0)) [
      | inl k ↦ (_, close h (ground arith))
      | inr k ↦ unclosed-CanStep s inv h drained (ground arith) ending
    ]
  ]
]
