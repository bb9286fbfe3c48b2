-- ===== src/Main/Servers/Progress/Termination.antt =====
-- cmd/policy-manager/main.go (runServers): it returns, however its goroutines are interleaved.
use policy_manager.Base.{
  ◌||◌, Bool-cases, ℕ, zero, suc, ◌≤◌, ◌≡◌, refl, ◌∙◌, inl, inr, Bool, true, false, String, Option,
  none, some, List, length, arith,
}
use policy_manager.Main.Servers.{
  Kind, By, a_request, a_goroutine, System, received, receive, Step, handle, move, push, close, pop,
  leave, signal, Reached, later,
}
use policy_manager.Main.Servers.Invariant.Steps.{Reached-Inv}
use policy_manager.Main.Servers.Progress.{measure, cost, step-measure, moves-broken, IsEnding}
use policy_manager.Main.Servers.Progress.Enabled.{done-or, ending-CanStep}

or_mono : (a b b' : Bool) → (b ≡ true → b' ≡ true) → (a || b) ≡ true → (a || b') ≡ true
or_mono true b b' f h = refl
or_mono false b b' f h = f h

received-IsEnding :
    (f : Option String) (e : String) (s : System) → IsEnding s → IsEnding (received f e s)
unfolding received
received-IsEnding none e s (inl h) = inl (or_mono s.signalled s.cancelled true (λ k. refl) h)
received-IsEnding none e s (inr h) = inr h
received-IsEnding (some f) e s h = h

step-IsEnding : {n : ℕ} {s t : System} {by : By} → Step n s by t → IsEnding s → IsEnding t
unfolding receive
step-IsEnding (handle m) (inl h) = inl h
step-IsEnding (handle m) (inr h) = inr (omega (arith, h, moves-broken m))
step-IsEnding (move m) (inl h) = inl h
step-IsEnding (move m) (inr h) = inr (omega (arith, h, moves-broken m))
step-IsEnding (push e m h k) (inl l) = inl l
step-IsEnding (push e m h k) (inr l) = inr (omega (arith, l, moves-broken m))
step-IsEnding (close h k) l = l
step-IsEnding {s = s} (pop e rest h k) l =
    received-IsEnding s.first_err e (record s { errors = rest }) l
step-IsEnding {s = s} (leave h k l) e = inl (done-or s.signalled true refl)
step-IsEnding (signal h) e = inl refl

-- The requests make steps, any number of them.
pub data Requests (n : ℕ) (s : System) : System → Type 0 where
  no_more : Requests n s s
  one_more : {t u : System} → Requests n s t → Step n t a_request u → Requests n s u

-- `P` will hold: it does, or, whatever the requests do meanwhile, a goroutine can make a step, and
-- after each step of a goroutine or of the operating system `P` will hold.
pub data Eventually (n : ℕ) (P : System → Type 0) : System → Type 0 where
  now : {s : System} → P s → Eventually n P s
  soon :
      {s : System}
      → ((t : System) → Requests n s t → (u : System) × Step n t a_goroutine u)
      → ((t u : System) (by : By) → Requests n s t → cost by ≡ 1 → Step n t by u → Eventually n P u)
      → Eventually n P s

abbrev pub HasReturned : System → Type 0
HasReturned s = s.returned ≡ true

record Running (kinds : List Kind) (m : ℕ) (s : System) : Type 0 where
  reached : Reached kinds s
  ending : IsEnding s
  left : measure s ≤ m
  running : s.returned ≡ false

handle-returned : {n : ℕ} {s t : System} → Step n s a_request t → t.returned ≡ s.returned
handle-returned (handle m) = refl

request-Running :
    {kinds : List Kind} {m : ℕ} {s t : System}
    → Running kinds m s
    → Step (length kinds) s a_request t
    → Running kinds m t
request-Running r step = record {
  reached = later r.reached step;
  ending = step-IsEnding step r.ending;
  left = omega (arith, r.left, step-measure step);
  running = handle-returned step ∙ r.running;
}

Requests-Running :
    {kinds : List Kind} {m : ℕ} {s t : System}
    → Running kinds m s
    → Requests (length kinds) s t
    → Running kinds m t
Requests-Running r no_more = r
Requests-Running r (one_more more step) = request-Running (Requests-Running r more) step

returns_within :
    {kinds : List Kind} (m : ℕ) {s : System}
    → Reached kinds s
    → IsEnding s
    → measure s ≤ m
    → Eventually (length kinds) HasReturned s
returns_within {kinds} zero {s} reached ending l = elim (Bool-cases s.returned) [
  | inl h ↦ now h
  | inr h ↦
      let (t, step) = ending-CanStep s (Reached-Inv reached) h ending in
      absurd (omega (arith, l, step-measure step))
]
returns_within {kinds} (suc m) {s} reached ending l = elim (Bool-cases s.returned) [
  | inl h ↦ now h
  | inr h ↦
      let r : Running kinds (suc m) s = record {
        reached = reached;
        ending = ending;
        left = l;
        running = h;
      } in
      soon
        (λ t more.
          let q = Requests-Running r more in
          ending-CanStep t (Reached-Inv q.reached) q.running q.ending)
        (λ t u by more own step.
          let q = Requests-Running r more in
          returns_within m (later q.reached step) (step-IsEnding step q.ending)
            (omega (arith, q.left, step-measure step, own)))
]

-- Once its context is done, by a signal or otherwise, or Run of a server has failed, runServers returns:
-- whatever the requests do, one of the goroutines can make a step until it has returned, and each such
-- step and each signal brings the return nearer.
pub run_servers-Eventually :
    {kinds : List Kind} {s : System}
    → Reached kinds s
    → IsEnding s
    → Eventually (length kinds) HasReturned s
run_servers-Eventually {s = s} reached ending =
    returns_within (measure s) reached ending (omega arith)
