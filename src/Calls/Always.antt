-- ===== src/Calls/Always.antt =====
-- What a program returns whatever the calls reply.
use iot_services_monitoring.Common.{◌≡◌, refl, List, [], ◌∷◌, Bool, true, false, if◌then◌else◌}
use iot_services_monitoring.State.{GlobalState}
use iot_services_monitoring.Calls.{
  Call, Reply, exec, exec_all, Program, ret, call, run, run_among, ◌>>=◌,
}

module _ {A : Type 0} (P : A → Type 0) where
  abbrev pub Always : Program A → Type 0
  Always (ret a) = P a
  Always (call c k) = (r : Reply c) → Always (k r)

  pub Always-run_among :
      (p : Program A) (others : List (List Call)) (g : GlobalState)
      → Always p
      → P (run_among p others g).1
  unfolding run_among
  Always-run_among (ret a) others g h = h
  Always-run_among (call c k) [] g h =
      Always-run_among (k (exec c g).1) [] (exec c g).0 (h (exec c g).1)
  Always-run_among (call c k) (cs ∷ others) g h =
      let g₁ = exec_all cs g in
      Always-run_among (k (exec c g₁).1) others (exec c g₁).0 (h (exec c g₁).1)

-- The rule for a sequence of two programs.
pub Always->>= :
    {A B : Type 0} (Q : A → Type 0) (P : B → Type 0) (p : Program A) (f : A → Program B)
    → Always Q p
    → ((a : A) → Q a → Always P (f a))
    → Always P (p >>= f)
Always->>= Q P (ret a) f h k = k a h
Always->>= Q P (call c p) f h k = λ r. Always->>= Q P (p r) f (h r) k

-- Every result satisfies what holds of all.
pub every-Always : {A : Type 0} (P : A → Type 0) (p : Program A) → ((a : A) → P a) → Always P p
every-Always P (ret a) h = h a
every-Always P (call c k) h = λ r. every-Always P (k r) h

-- A sequence is run in order.
pub run->>= :
    {A B : Type 0} (p : Program A) (f : A → Program B) (g : GlobalState)
    → run (p >>= f) g ≡ (let (g', a) = run p g in run (f a) g')
unfolding run
run->>= (ret a) f g = refl
run->>= (call c k) f g = run->>= (k (exec c g).1) f (exec c g).0

-- A choice between two programs.
pub Always-if :
    {A : Type 0} (P : A → Type 0) (b : Bool) (p q : Program A)
    → Always P p
    → Always P q
    → Always P (if b then p else q)
Always-if P true p q h k = h
Always-if P false p q h k = k

pub Always-pair :
    {A : Type 0} (P Q : A → Type 0) (p : Program A)
    → Always P p
    → Always Q p
    → Always (λ a. P a × Q a) p
Always-pair P Q (ret a) h k = (h, k)
Always-pair P Q (call c p) h k = λ r. Always-pair P Q (p r) (h r) (k r)
