-- ===== src/Server/Accept.antt =====
-- Which connections are served.
use iot_services_monitoring.Common.{
  ℕ, ◌≡◌, refl, ap, true, false, List, [], ◌∷◌, if◌then◌else◌, ◌&&◌,
}
use iot_services_monitoring.Server.{
  Kind, ClientInfo, Round, accept_failed, accepted, Effect, log_info, bind, listen, close,
  start_thread, accept_round, accept_loop,
}

abbrev pub started : List Effect → List ClientInfo
started [] = []
started (log_info m ∷ es) = started es
started (close fd ∷ es) = started es
started (bind port ∷ es) = started es
started (listen backlog ∷ es) = started es
started (start_thread client ∷ es) = client ∷ started es

abbrev pub closed : List Effect → List ℕ
closed [] = []
closed (log_info m ∷ es) = closed es
closed (close fd ∷ es) = fd ∷ closed es
closed (bind port ∷ es) = closed es
closed (listen backlog ∷ es) = closed es
closed (start_thread client ∷ es) = closed es

-- The connections for which there is memory and a thread, and the others.
abbrev pub served : List Round → List ClientInfo
served [] = []
served (accept_failed ∷ rs) = served rs
served (accepted client m t ∷ rs) = if m && t then client ∷ served rs else served rs

abbrev pub dropped : List Round → List ℕ
dropped [] = []
dropped (accept_failed ∷ rs) = dropped rs
dropped (accepted client m t ∷ rs) = if m && t then dropped rs else client.client_fd ∷ dropped rs

-- Whatever fails, the loop goes on: every connection that is accepted gets a thread, in order, or is
-- closed, and the threads are exactly those for which memory and a thread could be had.
pub accept_loop_lem :
    (k : Kind) (rounds : List Round)
    → (started (accept_loop k rounds) ≡ served rounds)
      × (closed (accept_loop k rounds) ≡ dropped rounds)
unfolding accept_loop accept_round
accept_loop_lem k [] = (refl, refl)
accept_loop_lem k (accept_failed ∷ rs) = accept_loop_lem k rs
accept_loop_lem k (accepted client false t ∷ rs) =
    let (a, b) = accept_loop_lem k rs in (a, ap (λ l. client.client_fd ∷ l) b)
accept_loop_lem k (accepted client true false ∷ rs) =
    let (a, b) = accept_loop_lem k rs in (a, ap (λ l. client.client_fd ∷ l) b)
accept_loop_lem k (accepted client true true ∷ rs) =
    let (a, b) = accept_loop_lem k rs in (ap (λ l. client ∷ l) a, b)
