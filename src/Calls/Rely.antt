-- ===== src/Calls/Rely.antt =====
-- Programs beside threads that keep a property of the state.
use iot_services_monitoring.Common.{◌⊎◌, inl, inr, List, [], ◌∷◌, All}
use iot_services_monitoring.State.{GlobalState}
use iot_services_monitoring.Calls.{Call, exec, exec_all, Program, ret, call, run_among, ◌>>=◌}
use iot_services_monitoring.Calls.Always.{Always, Always-run_among, Always->>=}

module _ (I : GlobalState → Type 0) where
  -- From a state with the property, wherever that comes from, each call keeps it, and the result
  -- satisfies P.
  abbrev pub Steady : {A : Type 0} → (A → Type 0) → Program A → Type 0
  Steady P (ret a) = P a
  Steady P (call c k) = (g : GlobalState) → I g → I (exec c g).0 × Steady P (k (exec c g).1)

  -- The same of a program that may break the property in the end, when its result satisfies P
  -- whatever the calls reply.
  abbrev pub Safe : {A : Type 0} → (A → Type 0) → Program A → Type 0
  Safe P (ret a) = P a
  Safe P (call c k) =
      (g : GlobalState)
      → I g
      → (I (exec c g).0 × Safe P (k (exec c g).1)) ⊎ Always P (k (exec c g).1)

  pub Steady->>= :
      {A B : Type 0} (P : A → Type 0) (Q : B → Type 0) (p : Program A) (f : A → Program B)
      → Steady P p
      → ((a : A) → P a → Steady Q (f a))
      → Steady Q (p >>= f)
  Steady->>= P Q (ret a) f h k = k a h
  Steady->>= P Q (call c p) f h k =
      λ g i. let (i', rest) = h g i in (i', Steady->>= P Q (p (exec c g).1) f rest k)

  pub Safe->>= :
      {A B : Type 0} (P : A → Type 0) (Q : B → Type 0) (p : Program A) (f : A → Program B)
      → Steady P p
      → ((a : A) → P a → Safe Q (f a))
      → Safe Q (p >>= f)
  Safe->>= P Q (ret a) f h k = k a h
  Safe->>= P Q (call c p) f h k =
      λ g i. let (i', rest) = h g i in inl (i', Safe->>= P Q (p (exec c g).1) f rest k)

  pub Safe-map :
      {A B : Type 0} (P : A → Type 0) (Q : B → Type 0) (p : Program A) (h : A → B)
      → Safe P p
      → ((a : A) → P a → Q (h a))
      → Safe Q (p >>= λ a. ret (h a))
  Safe-map P Q (ret a) h s k = k a s
  Safe-map P Q (call c p) h s k = λ g i. elim (s g i) [
    | inl (i', rest) ↦ inl (i', Safe-map P Q (p (exec c g).1) h rest k)
    | inr always ↦ inr (Always->>= P Q (p (exec c g).1) (λ a. ret (h a)) always k)
  ]

  -- Threads whose calls keep the property do no harm.
  module _ (E : Call → Type 0)
      (keeps : (c : Call) (g : GlobalState) → E c → I g → I (exec c g).0) where
    keeps_all : (cs : List Call) (g : GlobalState) → All E cs → I g → I (exec_all cs g)
    unfolding exec_all
    keeps_all [] g e i = i
    keeps_all (c ∷ cs) g e i = keeps_all cs (exec c g).0 e.1 (keeps c g e.0 i)

    pub Safe-run_among :
        {A : Type 0} (P : A → Type 0) (p : Program A) (others : List (List Call)) (g : GlobalState)
        → All (All E) others
        → I g
        → Safe P p
        → P (run_among p others g).1
    unfolding run_among
    Safe-run_among P (ret a) others g e i s = s
    Safe-run_among P (call c k) [] g e i s = elim (s g i) [
      | inl (i', rest) ↦ Safe-run_among P (k (exec c g).1) [] (exec c g).0 tt i' rest
      | inr always ↦ Always-run_among P (k (exec c g).1) [] (exec c g).0 always
    ]
    Safe-run_among P (call c k) (cs ∷ others) g e i s =
        let g₁ = exec_all cs g in
        elim (s g₁ (keeps_all cs g e.0 i)) [
          | inl (i', rest) ↦ Safe-run_among P (k (exec c g₁).1) others (exec c g₁).0 e.1 i' rest
          | inr always ↦ Always-run_among P (k (exec c g₁).1) others (exec c g₁).0 always
        ]
