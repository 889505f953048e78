-- ===== src/Events/Server/Silent.antt =====
-- No event of the anti-fraud server reaches the fan-out (src/anti_fraud_as/internal_api.py,
-- `InternalApiServer.start`).
use rdparty_as_poc.Prelude.{
  ℕ, String, ◌≡◌, ◌≢◌, refl, ap, ◌∙◌, Bool, true, false, none, some, List, [], ◌∷◌,
}
use rdparty_as_poc.Events.Publisher.{
  SimplePublisher, Broadcast, Action, act, connect, disconnect, resume_at,
}
use rdparty_as_poc.Events.Server.{
  Live, LiveAction, make_server, start_fraud, submit, turn, publish, live, live_run,
}
use rdparty_as_poc.Events.Server.Laws.{IsFor, IsFor-append, take_first-other, turn_lem, submit_lem}

module _ (order : List ℕ → List ℕ) where
  -- The server stores a loop that nothing runs.
  record IsDeaf (stored own : ℕ) (l : Live) : Type 0 where
    stores : l.app_loop ≡ some stored
    runs : l.running_loop ≡ some own
    waits : IsFor stored l.scheduled
    silent : l.begun ≡ []
    idle : l.publisher.running ≡ []
    unsent : l.publisher.sends ≡ []

  turn-IsDeaf :
      (stored own : ℕ) (l : Live)
      → stored ≢ own
      → IsDeaf stored own l
      → IsDeaf stored own (turn order l)
  turn-IsDeaf stored own l ne deaf =
      rw
        (turn_lem order own l none deaf.runs
          (take_first-other own stored l.scheduled deaf.waits ne))
        deaf

  submit-IsDeaf :
      (stored own : ℕ) (accepted : Bool) (message : String) (l : Live)
      → IsDeaf stored own l
      → IsDeaf stored own (submit accepted message l)
  submit-IsDeaf stored own true message l deaf =
      rw (submit_lem order stored true message l deaf.stores) (record {
        stores = deaf.stores;
        runs = deaf.runs;
        waits = IsFor-append stored message l.scheduled deaf.waits;
        silent = deaf.silent;
        idle = deaf.idle;
        unsent = deaf.unsent;
      })
  submit-IsDeaf stored own false message l deaf =
      rw (submit_lem order stored false message l deaf.stores) deaf

  publish-IsDeaf :
      (stored own : ℕ) (a : Action) (l : Live)
      → (act order a l.publisher).running ≡ []
      → (act order a l.publisher).sends ≡ []
      → IsDeaf stored own l
      → IsDeaf stored own (publish order a l)
  publish-IsDeaf stored own a l idle unsent deaf = record {
    stores = deaf.stores;
    runs = deaf.runs;
    waits = deaf.waits;
    silent = deaf.silent;
    idle = idle;
    unsent = unsent;
  }

  resumes-idle :
      (n : ℕ) (raised : Bool) (p : SimplePublisher) (bs : List Broadcast)
      → bs ≡ []
      → (resume_at n raised bs p ≡ ([], p))
  unfolding resume_at
  resumes-idle n raised p bs e = rw e (resumed n)
    where
      resumed : (n : ℕ) → resume_at n raised [] p ≡ ([], p)
      resumed n = refl

  live-IsDeaf :
      (stored own : ℕ) (a : LiveAction) (l : Live)
      → stored ≢ own
      → IsDeaf stored own l
      → IsDeaf stored own (live order a l)
  unfolding live act connect disconnect
  live-IsDeaf stored own (LiveAction.emits accepted message) l ne deaf =
      submit-IsDeaf stored own accepted message l deaf
  live-IsDeaf stored own LiveAction.turns l ne deaf = turn-IsDeaf stored own l ne deaf
  live-IsDeaf stored own (LiveAction.connects ws) l ne deaf =
      publish-IsDeaf stored own (Action.connects ws) l deaf.idle deaf.unsent deaf
  live-IsDeaf stored own (LiveAction.leaves ws) l ne deaf =
      publish-IsDeaf stored own (Action.leaves ws) l deaf.idle deaf.unsent deaf
  live-IsDeaf stored own (LiveAction.resumes n raised) l ne deaf =
      let e = resumes-idle n raised l.publisher l.publisher.running deaf.idle in
      publish-IsDeaf stored own (Action.resumes n raised) l (ap (λ r. r.0) e)
        (ap (λ r. r.1.sends) e ∙ deaf.unsent) deaf

  live_run-IsDeaf :
      (stored own : ℕ) (actions : List LiveAction) (l : Live)
      → stored ≢ own
      → IsDeaf stored own l
      → IsDeaf stored own (live_run order actions l)
  live_run-IsDeaf stored own [] l ne deaf = deaf
  live_run-IsDeaf stored own (a ∷ actions) l ne deaf =
      live_run-IsDeaf stored own actions (live order a l) ne (live-IsDeaf stored own a l ne deaf)

  started-IsDeaf :
      (uvicorn_run : ℕ → ℕ) (loop : ℕ)
      → IsDeaf loop (uvicorn_run loop) (start_fraud uvicorn_run loop make_server)
  unfolding start_fraud
  started-IsDeaf uvicorn_run loop = record {
    stores = refl;
    runs = refl;
    waits = tt;
    silent = refl;
    idle = refl;
    unsent = refl;
  }

  -- Where uvicorn runs a loop of its own and not the one that was set, no event of the anti-fraud server
  -- is ever broadcast, whatever is handed over, whatever its thread runs and whoever is connected.
  pub start_fraud-silent :
      (uvicorn_run : ℕ → ℕ) (loop : ℕ) (actions : List LiveAction)
      → loop ≢ uvicorn_run loop
      → let l = live_run order actions (start_fraud uvicorn_run loop make_server) in
        (l.begun ≡ []) × (l.publisher.sends ≡ [])
  start_fraud-silent uvicorn_run loop actions ne =
      let deaf =
        live_run-IsDeaf loop (uvicorn_run loop) actions (start_fraud uvicorn_run loop make_server)
          ne (started-IsDeaf uvicorn_run loop) in
      (deaf.silent, deaf.unsent)
