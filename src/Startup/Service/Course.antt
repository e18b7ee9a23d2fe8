-- ===== src/Startup/Service/Course.antt =====
-- What the Windows service of crates/oxid-relay/src/main.rs reports, and how it ends.
use mathlib.Core.List.{Memᴰ}
use mathlib.Core.List.Memᴰ
use oxid_relay.Prelude.{
  ◌≡◌, ◌⊎◌, ◌≢◌, inl, inr, refl, sym, subst, arith, true, false, none, some, Option, List, [], ◌∷◌,
}
use oxid_relay.Prelude.Text.{Text}
use oxid_relay.Prelude.Result.{ok, err, Result-cases}
use oxid_relay.Queue.Sqlite.{Moment}
use oxid_relay.Queue.Sqlite.Open.{Database}
use oxid_relay.Startup.Relay.{StartError, System, Started}
use oxid_relay.Startup.Relay.Starts.{IsRunning, Stops, run_relay-Starts}
use oxid_relay.Startup.Service.{
  ServiceControl, stop, shutdown, interrogate, other, event_handler, is_shut_down, running_status,
  stopped_status, Manager, register_error, status_error, runtime_error, relay_error, Service,
  relay_result, service_path, run_service,
}

-- A control asks the service to end.
abbrev pub Told : List ServiceControl → Type 0
Told controls = Memᴰ stop controls ⊎ Memᴰ shutdown controls

Told-tail :
    (c : ServiceControl) {controls : List ServiceControl} → Told controls → Told (c ∷ controls)
Told-tail c (inl m) = inl (Memᴰ.tail m)
Told-tail c (inr m) = inr (Memᴰ.tail m)

Told-drop :
    (c : ServiceControl) {controls : List ServiceControl}
    → c ≢ stop
    → c ≢ shutdown
    → Told (c ∷ controls)
    → Told controls
Told-drop c first second (inl m) = elim (Memᴰ.cases_cons m) [
  | inl same ↦ absurd (first (sym same))
  | inr m' ↦ inl m'
]
Told-drop c first second (inr m) = elim (Memᴰ.cases_cons m) [
  | inl same ↦ absurd (second (sym same))
  | inr m' ↦ inr m'
]

untold : Told [] → ⊥
untold (inl m) = Memᴰ.not-nil m
untold (inr m) = Memᴰ.not-nil m

is_shut_down-Told :
    (controls : List ServiceControl)
    → ((is_shut_down controls ≡ true) × Told controls)
      ⊎ ((is_shut_down controls ≡ false) × (Told controls → ⊥))
unfolding is_shut_down event_handler
is_shut_down-Told [] = inr (refl, untold)
is_shut_down-Told (stop ∷ cs) = inl (refl, inl (Memᴰ.head refl))
is_shut_down-Told (shutdown ∷ cs) = inl (refl, inr (Memᴰ.head refl))
is_shut_down-Told (interrogate ∷ cs) = elim (is_shut_down-Told cs) [
  | inl (e, t) ↦ inl (e, Told-tail interrogate t)
  | inr (e, n) ↦ inr (e, λ t. n (Told-drop interrogate (ground arith) (ground arith) t))
]
is_shut_down-Told (other n ∷ cs) = elim (is_shut_down-Told cs) [
  | inl (e, t) ↦ inl (e, Told-tail (other n) t)
  | inr (e, n') ↦ inr (e, λ t. n' (Told-drop (other n) (ground arith) (ground arith) t))
]

module _ {Builder Mailbox Letter V A E J Options F Filter W : Type 0}
    (sys : System Builder Mailbox Letter V A E J Options F Filter W) (manager : Manager)
    (config_path : Option Text) (controls : List ServiceControl) (e : Moment) (db : Database) where
  -- The handler is registered and Running is accepted.
  abbrev pub IsAccepted : Type 0
  IsAccepted = (manager.register ≡ ok tt) × (manager.set_service_status running_status ≡ ok tt)

  -- The runtime is built, too.
  abbrev pub IsServing : Type 0
  IsServing = IsAccepted × (manager.build_runtime ≡ ok tt)

  -- How the service ends, if it does, after which reports.
  pub data Course : Service → Type 0 where
    unregistered :
        (x : Text)
        → manager.register ≡ err x
        → Course (record { reported = []; ended = some (err (register_error x)) })
    refused :
        (x : Text)
        → manager.register ≡ ok tt
        → manager.set_service_status running_status ≡ err x
        → Course (record { reported = running_status ∷ []; ended = some (err (status_error x)) })
    unbuilt :
        (x : Text)
        → IsAccepted
        → manager.build_runtime ≡ err x
        → Course (record { reported = running_status ∷ []; ended = some (err (runtime_error x)) })
    unstarted :
        (x : StartError)
        → IsServing
        → Stops sys (service_path config_path) e db x
        → Course (record {
          reported = running_status ∷ stopped_status ∷ [];
          ended = some (err (relay_error x));
        })
    told :
        (d : Started F W)
        → IsServing
        → IsRunning sys (service_path config_path) d
        → Told controls
        → Course (record { reported = running_status ∷ stopped_status ∷ []; ended = some (ok tt) })
    serving :
        (d : Started F W)
        → IsServing
        → IsRunning sys (service_path config_path) d
        → (Told controls → ⊥)
        → Course (record { reported = running_status ∷ []; ended = none })

  at :
      {s : Service}
      → run_service sys manager config_path controls e db ≡ s
      → Course s
      → Course (run_service sys manager config_path controls e db)
  at same c = subst Course (sym same) c

  -- Whatever the service control manager, the system and the configuration answer, and whatever
  -- controls have come, the service is in one of six states, by the first step that fails. It has
  -- ended with an error since its handler could not be registered, after no report; or since, with
  -- the handler registered, Running was not accepted, or, with Running accepted, no runtime could be
  -- built, after reporting Running alone; or since, with the runtime built, the relay did not
  -- start, by what stops it, after Running and Stopped. Or all these steps have succeeded and the
  -- relay is running: then, if Stop or Shutdown has come, it has ended well after Running and
  -- Stopped, and if neither has, it goes on and has reported Running alone.
  pub run_service-Course : Course (run_service sys manager config_path controls e db)
  unfolding run_service relay_result
  run_service-Course = elim (Result-cases manager.register) [
    | inr (x, r) ↦ at (simp (r, run_service)) (unregistered x r)
    | inl (u, r) ↦ elim (Result-cases (manager.set_service_status running_status)) [
      | inr (x, a) ↦ at (simp (r, a, run_service)) (refused x r a)
      | inl (u', a) ↦ elim (Result-cases manager.build_runtime) [
        | inr (x, b) ↦ at (simp (r, a, b, run_service)) (unbuilt x (r, a) b)
        | inl (u'', b) ↦ elim (run_relay-Starts sys (service_path config_path) e db) [
          | inr (x, s, why) ↦
              at (simp (r, a, b, s, run_service, relay_result)) (unstarted x ((r, a), b) why)
          | inl (d, s, good) ↦ elim (is_shut_down-Told controls) [
            | inl (t, asked) ↦
                at (simp (r, a, b, s, t, run_service, relay_result)) (told d ((r, a), b) good asked)
            | inr (t, unasked) ↦
                at (simp (r, a, b, s, t, run_service, relay_result))
                  (serving d ((r, a), b) good unasked)
          ]
        ]
      ]
    ]
  ]
