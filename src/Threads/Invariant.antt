-- ===== src/Threads/Invariant.antt =====
-- What holds of every state of the server that its threads reach.
use iot_services_monitoring.Common.{
  ℕ, ◌≡◌, refl, List, [], ◌∷◌, All, All-set, All-get_elem?, All-append, some, get_elem?,
}
use iot_services_monitoring.Text.{Text}
use iot_services_monitoring.Utils.{Strtod}
use iot_services_monitoring.State.{GlobalState}
use iot_services_monitoring.State.Inv.{IsValid}
use iot_services_monitoring.State.Inv.Keeps.{state_init-IsValid}
use iot_services_monitoring.Calls.{Call, exec, Program, ret, run_among}
use iot_services_monitoring.Calls.Invariant.{exec-IsValid}
use iot_services_monitoring.Config.{ServerConfig}
use iot_services_monitoring.Threads.{
  Finished, Connection, System, accept, advance, Reach, start, later, thread_of,
}
use iot_services_monitoring.Threads.Runs.{Runs, here, Runs-others, Runs-own, Runs-run_among}

module _ (strtod : Text → Strtod) (g_config : ServerConfig) where
  -- The shared state is valid in every state that the server reaches.
  pub reach-IsValid : {s : System} → Reach strtod g_config s → IsValid s.state
  reach-IsValid start = state_init-IsValid
  reach-IsValid (later r (accept connection)) = reach-IsValid r
  reach-IsValid (later r (advance i c k e)) = exec-IsValid c (reach-IsValid r)

  -- Where a thread comes from: the thread of a connection, begun in a valid state.
  pub record Origin (g : GlobalState) (q : Program Finished) : Type 0 where
    pub connection : Connection
    pub begun : GlobalState
    pub valid : IsValid begun
    pub runs : Runs (thread_of strtod g_config connection) begun q g

  Origin-others :
      (g : GlobalState) (c : Call) (qs : List (Program Finished))
      → All (Origin g) qs
      → All (Origin (exec c g).0) qs
  Origin-others g c [] h = tt
  Origin-others g c (q ∷ qs) (o, h) = (
    record {
      connection = o.connection;
      begun = o.begun;
      valid = o.valid;
      runs = Runs-others c o.runs;
    },
    Origin-others g c qs h,
  )

  reach-Origin : {s : System} → Reach strtod g_config s → All (Origin s.state) s.threads
  reach-Origin start = tt
  reach-Origin {s} (later {s = s₀} r (accept connection)) =
      All-append (Origin s₀.state) s₀.threads _ (reach-Origin r) (
        record { connection = connection; begun = s₀.state; valid = reach-IsValid r; runs = here },
        tt,
      )
  reach-Origin (later {s = s₀} r (advance i c k e)) =
      let all = reach-Origin r in
      let o = All-get_elem? (Origin s₀.state) s₀.threads i all e in
      All-set (Origin (exec c s₀.state).0) s₀.threads i (Origin-others s₀.state c s₀.threads all)
        (record {
          connection = o.connection;
          begun = o.begun;
          valid = o.valid;
          runs = Runs-own c k o.runs;
        })

  -- A thread that has ended has the outcome that its connection's program has, begun in a valid state
  -- and run among some calls of the other threads.
  pub outcome-run_among :
      {s : System} (i : ℕ) (a : Finished)
      → Reach strtod g_config s
      → get_elem? s.threads i ≡ some (ret a)
      → (connection : Connection) × (g : GlobalState) × (others : List (List Call)) × IsValid g
        × ((run_among (thread_of strtod g_config connection) others g).1 ≡ a)
  outcome-run_among {s} i a r e =
      let o = All-get_elem? (Origin s.state) s.threads i (reach-Origin r) e in
      let (css, same) = Runs-run_among o.runs refl in (o.connection, o.begun, css, o.valid, same)
