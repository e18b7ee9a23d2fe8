-- ===== src/Startup/Foreground.antt =====
-- `run_foreground` and `shutdown_signal` of crates/oxid-relay/src/main.rs: the relay in the
-- foreground, on the signals that have come so far.
use mathlib.Core.List.{Memᴰ}
use mathlib.Core.List.Memᴰ
use oxid_relay.Prelude.{
  [], ◌∷◌, ap, ◌⊎◌, arith, Bool-cases, ◌≡◌, refl, Bool, true, false, Option, some, List, any, inl,
  inr, ◌||◌, not, if◌then◌else◌,
}
use oxid_relay.Prelude.Text.{Text}
use oxid_relay.Prelude.Result.{Result, ok, err, Result-cases}
use oxid_relay.Queue.Sqlite.{Moment}
use oxid_relay.Queue.Sqlite.Open.{Database}
use oxid_relay.Startup.Relay.{System, run_relay}
use oxid_relay.Startup.Service.{ServiceError, runtime_error, relay_result}

-- SIGINT and SIGTERM.
pub data Signal : Type 0 where
  interrupt terminate : Signal

abbrev pub is_interrupt : Signal → Bool
is_interrupt interrupt = true
is_interrupt terminate = false

-- What tokio answers to the two listeners; a `ctrl_c` that fails resolves at once.
pub record Signals : Type 0 where
  pub unix : Bool
  pub terminations : Result (Unit {0}) Text
  pub ctrl_c : Result (Unit {0}) Text

-- `tokio::signal::ctrl_c().await` has returned.
abbrev pub interrupted : Signals → List Signal → Bool
interrupted signals seen = elim signals.ctrl_c [ err x ↦ true | ok _ ↦ any is_interrupt seen ]

-- The future has resolved.
unfoldable pub shutdown_signal : Signals → List Signal → Bool
shutdown_signal signals seen =
    if signals.unix
    then elim signals.terminations [
      | ok _ ↦ interrupted signals seen || any (λ s. not (is_interrupt s)) seen
      | err x ↦ interrupted signals seen
    ]
    else interrupted signals seen

-- What ends the future: SIGINT; SIGTERM, where the system has it and its listener is installed; or
-- that the listener of SIGINT fails.
abbrev pub Signalled : Signals → List Signal → Type 0
Signalled signals seen =
    ((x : Text) × (signals.ctrl_c ≡ err x))
    ⊎ Memᴰ interrupt seen
    ⊎ ((signals.unix ≡ true) × (signals.terminations ≡ ok tt) × Memᴰ terminate seen)

any_cases :
    {A : Type 0} (p : A → Bool) (x : A)
    → p x ≡ true
    → ((y : A) → p y ≡ true → x ≡ y)
    → (xs : List A) → ((any p xs ≡ true) × Memᴰ x xs) ⊎ ((any p xs ≡ false) × (Memᴰ x xs → ⊥))
any_cases p x hit only [] = inr (refl, λ m. Memᴰ.not-nil m)
any_cases p x hit only (y ∷ ys) = elim (Bool-cases (p y)) [
  | inl e ↦ inl (rw e refl, Memᴰ.head (only y e))
  | inr e ↦ elim (any_cases p x hit only ys) [
    | inl (f, m) ↦ inl (rw e f, Memᴰ.tail m)
    | inr (f, n) ↦ inr (
      rw e f,
      λ m. elim (Memᴰ.cases_cons m) [
        | inl same ↦ absurd (ground (arith, ap p same, hit))
        | inr m' ↦ n m'
      ],
    )
  ]
]

interrupt_only : (y : Signal) → is_interrupt y ≡ true → interrupt ≡ y
interrupt_only interrupt e = refl
interrupt_only terminate e = absurd (ground arith)

terminate_only : (y : Signal) → not (is_interrupt y) ≡ true → terminate ≡ y
terminate_only interrupt e = absurd (ground arith)
terminate_only terminate e = refl

interrupted-cases :
    (signals : Signals) (seen : List Signal)
    → ((interrupted signals seen ≡ true)
        × (((x : Text) × (signals.ctrl_c ≡ err x)) ⊎ Memᴰ interrupt seen))
      ⊎ ((interrupted signals seen ≡ false)
          × ((x : Text) → signals.ctrl_c ≡ err x → ⊥)
          × (Memᴰ interrupt seen → ⊥))
interrupted-cases signals seen = elim (Result-cases signals.ctrl_c) [
  | inr (x, e) ↦ inl (rw e refl, inl (x, e))
  | inl (u, e) ↦ elim (any_cases is_interrupt interrupt refl interrupt_only seen) [
    | inl (f, m) ↦ inl (rw e f, inr m)
    | inr (f, n) ↦ inr (rw e f, λ x g. absurd (cc), n)
  ]
]

-- The future has resolved exactly where it is signalled.
pub shutdown_signal-Signalled :
    (signals : Signals) (seen : List Signal)
    → ((shutdown_signal signals seen ≡ true) × Signalled signals seen)
      ⊎ ((shutdown_signal signals seen ≡ false) × (Signalled signals seen → ⊥))
unfolding shutdown_signal
shutdown_signal-Signalled signals seen = elim (interrupted-cases signals seen) [
  | inl (f, inl failed) ↦ inl (sooner f, inl failed)
  | inl (f, inr m) ↦ inl (sooner f, inr (inl m))
  | inr (f, fine, n) ↦ elim (Bool-cases signals.unix) [
    | inr u ↦ inr (
      rw u f,
      λ g. elim g [ inl (x, e) ↦ fine x e | inr (inl m) ↦ n m | inr (inr (v, t, m)) ↦ absurd (cc) ],
    )
    | inl u ↦ elim (Result-cases signals.terminations) [
      | inr (x, t) ↦ inr (
        rw (u, t) f,
        λ g. elim g [
          | inl (y, e) ↦ fine y e
          | inr (inl m) ↦ n m
          | inr (inr (v, t', m)) ↦ absurd (cc)
        ],
      )
      | inl (y, t) ↦
          elim (any_cases (λ s. not (is_interrupt s)) terminate refl terminate_only seen) [
            | inl (h, m) ↦ inl (rw (u, t, f, h) refl, inr (inr (u, t, m)))
            | inr (h, away) ↦ inr (
              rw (u, t, f, h) refl,
              λ g. elim g [
                | inl (z, e) ↦ fine z e
                | inr (inl m) ↦ n m
                | inr (inr (v, t', m)) ↦ away m
              ],
            )
          ]
    ]
  ]
]
  where
    sooner : interrupted signals seen ≡ true → shutdown_signal signals seen ≡ true
    sooner f = elim (Bool-cases signals.unix) [
      | inr u ↦ rw u f
      | inl u ↦ elim (Result-cases signals.terminations) [
        | inr (x, t) ↦ rw (u, t) f
        | inl (y, t) ↦ rw (u, t, f) refl
      ]
    ]

module _ {Builder Mailbox Letter V A E J Options F Filter W : Type 0}
    (sys : System Builder Mailbox Letter V A E J Options F Filter W) where
  -- The result, once there is one; the runtime is built first.
  unfoldable pub run_foreground :
      Result (Unit {0}) Text
      → Signals
      → Text
      → List Signal
      → Moment
      → Database
      → Option (Result (Unit {0}) ServiceError)
  unfolding shutdown_signal relay_result
  run_foreground build_runtime signals config_path seen e db = elim build_runtime [
    | err x ↦ some (err (runtime_error x))
    | ok _ ↦ relay_result (shutdown_signal signals seen) (run_relay sys config_path e db).0
  ]
