-- ===== src/Threads/Runs.antt =====
-- One thread's part of a schedule: its own calls, and those of others between them.
use iot_services_monitoring.Common.{◌≡◌, refl, ◌∙◌, List, [], ◌∷◌}
use iot_services_monitoring.State.{GlobalState}
use iot_services_monitoring.Calls.{Call, Reply, exec, Program, ret, call, run_among}

-- One more call of another thread before the first of the program.
abbrev sooner : Call → List (List Call) → List (List Call)
sooner c [] = (c ∷ []) ∷ []
sooner c (cs ∷ css) = (c ∷ cs) ∷ css

module _ {A : Type 0} where
  -- A thread with this program in this state comes to that program in that state.
  pub data Runs : Program A → GlobalState → Program A → GlobalState → Type 0 where
    here : {p : Program A} {g : GlobalState} → Runs p g p g
    others :
        {p q : Program A} {g g' : GlobalState}
        → (c : Call) → Runs p (exec c g).0 q g'
        → Runs p g q g'
    own :
        {c : Call} {k : Reply c → Program A} {q : Program A} {g g' : GlobalState}
        → Runs (k (exec c g).1) (exec c g).0 q g'
        → Runs (call c k) g q g'

  pub Runs-others :
      {p q : Program A} {g g' : GlobalState} (c : Call) → Runs p g q g' → Runs p g q (exec c g').0
  Runs-others c here = others c here
  Runs-others c (others c' r) = others c' (Runs-others c r)
  Runs-others c (own r) = own (Runs-others c r)

  pub Runs-own :
      {p : Program A} {g g' : GlobalState} (c : Call) (k : Reply c → Program A)
      → Runs p g (call c k) g'
      → Runs p g (k (exec c g').1) (exec c g').0
  Runs-own c k here = own here
  Runs-own c k (others c' r) = others c' (Runs-own c k r)
  Runs-own c k (own r) = own (Runs-own c k r)

  run_among-sooner :
      (p : Program A) (c : Call) (css : List (List Call)) (g : GlobalState)
      → (run_among p (sooner c css) g).1 ≡ (run_among p css (exec c g).0).1
  unfolding run_among
  run_among-sooner (ret a) c css g = refl
  run_among-sooner (call c' k) c [] g = refl
  run_among-sooner (call c' k) c (cs ∷ css) g = refl

  -- A thread that ends returns what run_among returns for these calls of the others.
  pub Runs-run_among :
      {p q : Program A} {g g' : GlobalState} {a : A}
      → Runs p g q g'
      → q ≡ ret a
      → (css : List (List Call)) × ((run_among p css g).1 ≡ a)
  unfolding run_among
  Runs-run_among {g = g} here e = ([], rw (e, run_among) refl)
  Runs-run_among {p} {g = g} (others c r) e =
      let (css, same) = Runs-run_among r e in (sooner c css, run_among-sooner p c css g ∙ same)
  Runs-run_among (own r) e = let (css, same) = Runs-run_among r e in ([] ∷ css, same)
