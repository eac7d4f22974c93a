-- ===== src/Infra/Pprof/Race.antt =====
-- infra/pprof.go: Start and Stop when calls overlap: a compare-and-swap and the body that follows it are two steps,
-- and other calls may come between them.
use lunaship.Base.{
  String, List, [], ◌∷◌, All, subst, sym, ℕ, suc, true, none, some, ◌≡◌, refl, arith,
}
use lunaship.Infra.Pprof.{
  PprofState, stopped, running, dumping, Platform, Manager, StartEnv, StopEnv,
}
use lunaship.Infra.Pprof.Start.{compare_and_swap, start_body, start}
use lunaship.Infra.Pprof.Stop.{stop_body, stop}
use lunaship.Infra.Pprof.Handlers.{handle_start, handle_stop}
use lunaship.Infra.Pprof.Serve.{ControlRequest, to_start, to_stop, serve_request, serve_requests}
use lunaship.Infra.Pprof.Laws.{IsConsistent}

-- The manager, and the calls that have passed their compare-and-swap and wait for the mutex.
pub record World : Type 0 where
  pub manager : Manager
  pub starting : ℕ
  pub stopping : ℕ

module _ (E : Type 0) (os : Platform) where
  pub data Step (w : World) : World → Type 0 where
    begin_start :
        (m : Manager)
        → compare_and_swap w.manager stopped running ≡ some m
        → Step w (record w { manager = m; starting = suc w.starting })
    begin_stop :
        (m : Manager)
        → compare_and_swap w.manager running dumping ≡ some m
        → Step w (record w { manager = m; stopping = suc w.stopping })
    end_start :
        (env : StartEnv E) (n : ℕ)
        → w.starting ≡ suc n
        → Step w (record w { manager = (start_body os env w.manager).manager; starting = n })
    end_stop :
        (env : StopEnv E) (n : ℕ)
        → w.stopping ≡ suc n
        → Step w (record w { manager = (stop_body os env w.manager).manager; stopping = n })

  pub data Reach (w : World) : World → Type 0 where
    here : Reach w w
    next : {u v : World} → Reach w u → Step u v → Reach w v

  -- The server, the file and the running profile come and go together.
  abbrev pub FieldsAgree : World → Type 0
  FieldsAgree w =
      (w.manager.server ≡ w.manager.cpu_file) × (w.manager.profiling ≡ w.manager.cpu_file)

  Step-FieldsAgree : {w u : World} → Step w u → FieldsAgree w → FieldsAgree u
  unfolding compare_and_swap start_body stop_body
  Step-FieldsAgree (begin_start m e) h = ground arith
  Step-FieldsAgree (begin_stop m e) h = ground arith
  Step-FieldsAgree (end_start env n e) h = ground arith
  Step-FieldsAgree (end_stop env n e) h = ground arith

  -- If the server, the open file and the running profile agree, being all there or all absent, they
  -- still agree after any interleaving of the steps of calls.
  pub Reach-FieldsAgree : {w u : World} → FieldsAgree w → Reach w u → FieldsAgree u
  Reach-FieldsAgree h here = h
  Reach-FieldsAgree h (next r s) = Step-FieldsAgree s (Reach-FieldsAgree h r)

  -- The manager says that it is stopped, and its server and its profile are up.
  abbrev pub IsLeaked : Manager → Type 0
  IsLeaked m = (m.state ≡ stopped) × (m.server ≡ true) × (m.profiling ≡ true)

  abbrev pub quiet : Manager → World
  quiet m = record { manager = m; starting = 0; stopping = 0 }

  -- The answers of a Start in which no call fails.
  abbrev pub fine : ℕ → StartEnv E
  fine now = record {
    mkdir_answer = none;
    create_answer = none;
    profile_answer = none;
    listen_answer = none;
    now = now;
  }

  abbrev set_state : Manager → PprofState → Manager
  set_state m s = record m { state = s }

  -- The manager after a Stop that overtook the Start.
  abbrev overtaken : StopEnv E → Manager → Manager
  overtaken env m = (stop_body os env (set_state m dumping)).manager

  race_steps :
      (m : Manager) (now : ℕ) (env : StopEnv E)
      → m.state ≡ stopped
      → Reach (quiet m) (quiet (start_body os (fine now) (overtaken env m)).manager)
  unfolding compare_and_swap
  race_steps m now env idle =
      next
        (next
          (next (next here (begin_start (set_state m running) (ground arith)))
            (begin_stop (set_state m dumping) refl))
          (end_stop env 0 refl))
        (end_start (fine now) 0 refl)

  -- From every consistent and stopped manager with no call under way, some interleaving of calls
  -- leads to a manager that says it is stopped, with no call left to finish, while its server and its
  -- profile are up.
  pub race_leaks :
      (m : Manager) (now : ℕ) (env : StopEnv E)
      → IsConsistent m
      → m.state ≡ stopped
      → (after : Manager) × Reach (quiet m) (quiet after) × IsLeaked after
  unfolding start_body stop_body
  race_leaks m now env h idle = (
    (start_body os (fine now) (overtaken env m)).manager,
    race_steps m now env idle,
    ground arith,
  )

  leaked-start :
      (m : Manager) (method : String) (env : StartEnv E)
      → IsLeaked m
      → (handle_start os env method m).1 ≡ m
  unfolding handle_start start start_body compare_and_swap
  leaked-start m method env h = ground arith

  leaked-stop :
      (m : Manager) (method : String) (env : StopEnv E)
      → IsLeaked m
      → (handle_stop os env method m).1 ≡ m
  unfolding handle_stop stop compare_and_swap
  leaked-stop m method env h = ground arith

  -- A manager that says it is stopped while its server and profile are up is changed by no requests to
  -- start or stop that come one after another, however many there are and whatever would fail: behind
  -- each of them it is the same. Calls that overlap are not meant.
  pub leak_stays :
      (rs : List (ControlRequest E)) (m : Manager)
      → IsLeaked m
      → All (λ q. q.1 ≡ m) (serve_requests os rs m)
  unfolding serve_requests serve_request
  leak_stays [] m h = tt
  leak_stays (to_start method env ∷ rs) m h =
      let same = leaked-start m method env h in
      (
        same,
        subst (λ m'. All (λ q. q.1 ≡ m) (serve_requests os rs m')) (sym same) (leak_stays rs m h),
      )
  leak_stays (to_stop method env ∷ rs) m h =
      let same = leaked-stop m method env h in
      (
        same,
        subst (λ m'. All (λ q. q.1 ≡ m) (serve_requests os rs m')) (sym same) (leak_stays rs m h),
      )
