-- ===== src/Mdns/Publisher.antt =====
-- `commandPublisher` of internal/mdns/publisher.go. A process of `dns-sd` is its number; what the
-- runner and the system answer is an argument of each step. `Start` is one critical section from its
-- test on; `Stop` takes the process in one, and kills it when the lock is released.
pub mod Balanced
use talka.Prelude.{
  ◌∙◌, ℕ, ◌+◌, ◌≡◌, refl, Bool, true, false, Option, none, some, List, [], ◌∷◌, ◌++◌, Result, ok,
  err, arith, if◌then◌else◌, ◌==◌, inl, inr, Bool-cases, Option-cases, Result-cases,
}
use talka.Prelude.Int.{ℤ, is_positive}
use talka.Prelude.Bytes.{Bytes, codes}
use talka.Mdns
use talka.Mdns.{Descriptor, txt_records, validate_txt}

pub data Error : Type 0 where
  cancelled port_not_positive : Error
  invalid_descriptor : Mdns.Error → Error
  bonjour_unavailable process_error : Bytes → Error

pub record Publisher : Type 0 where
  pub process : Option ℕ
  pub started : Bool

abbrev pub new_publisher : Publisher
new_publisher = record { process = none; started = false }

-- What happens to the processes: one is started with these arguments, one is taken from the publisher
-- by `Stop`, and `Kill` is called for one, with its error.
pub data Action : Type 0 where
  starts : ℕ → List Bytes → Action
  takes : ℕ → Action
  kills : ℕ → Option Bytes → Action

module _ (unicode : Bytes → Bytes) (itoa : ℤ → Bytes) where
  abbrev pub arguments : Descriptor → ℤ → List Bytes
  arguments d port =
      codes "-R" ∷ d.device_name ∷ d.service_type ∷ codes "local" ∷ itoa port ∷ txt_records d

  -- The start of the process, from the test of `started` on; `runner` is what the runner answers.
  unfoldable pub run_process :
      Descriptor → ℤ → Result Bytes ℕ → Publisher → Publisher × (List Action × Option Error)
  run_process d port runner p = elim p.started [
    | true ↦ (p, ([], none))
    | false ↦ elim runner [
      | err text ↦ (p, ([], some (Error.bonjour_unavailable text)))
      | ok process ↦ (
        record { process = some process; started = true },
        (Action.starts process (arguments d port) ∷ [], none),
      )
    ]
  ]

  -- `Start`; `done` is that the context is done.
  unfoldable pub start :
      Bool → Descriptor → ℤ → Result Bytes ℕ → Publisher → Publisher × (List Action × Option Error)
  start done d port runner p = elim done [
    | true ↦ (p, ([], some Error.cancelled))
    | false ↦ elim (is_positive port) [
      | false ↦ (p, ([], some Error.port_not_positive))
      | true ↦ elim (validate_txt unicode (txt_records d)) [
        | err e ↦ (p, ([], some (Error.invalid_descriptor e)))
        | ok x ↦ run_process d port runner p
      ]
    ]
  ]

-- The critical section of `Stop`: the process that it takes, if there is one.
unfoldable pub take_process : Publisher → Publisher × (Option ℕ × List Action)
take_process p = (
  record { process = none; started = false },
  elim p.process [ none ↦ (none, []) | some process ↦ (some process, Action.takes process ∷ []) ],
)

-- The rest of `Stop` for a process; `kill` and `wait` are the errors of `Kill` and of `Wait`, which
-- is not called if `Kill` fails.
unfoldable pub kill_process : Option Bytes → Option Bytes → ℕ → List Action × Option Error
kill_process kill wait process = (
  Action.kills process kill ∷ [],
  elim kill [
    | some text ↦ some (Error.process_error text)
    | none ↦ elim wait [ some text ↦ some (Error.process_error text) | none ↦ none ]
  ],
)

-- The publisher with the calls of `Stop` that run: the processes that they have still to kill.
pub record System : Type 0 where
  pub publisher : Publisher
  pub stopping : List ℕ

abbrev pub no_calls : System
no_calls = record { publisher = new_publisher; stopping = [] }

abbrev put : Option ℕ → List ℕ → List ℕ
put none qs = qs
put (some q) qs = q ∷ qs

module _ (unicode : Bytes → Bytes) (itoa : ℤ → Bytes) where
  pub data Step (s : System) : List Action → System → Type 0 where
    start_called :
        (done : Bool) (d : Descriptor) (port : ℤ) (runner : Result Bytes ℕ)
        → Step s
            (start unicode itoa done d port runner s.publisher).1.0
            (record s { publisher = (start unicode itoa done d port runner s.publisher).0 })
    stop_called : Step s (take_process s.publisher).1.1 (record s {
      publisher = (take_process s.publisher).0;
      stopping = put (take_process s.publisher).1.0 s.stopping;
    })
    -- Any of the running calls of `Stop` goes on.
    stop_ends :
        (qs rest : List ℕ) (q : ℕ) (kill wait : Option Bytes)
        → s.stopping ≡ qs ++ q ∷ rest
        → Step s (kill_process kill wait q).0 (record s { stopping = qs ++ rest })

  pub data Run (s : System) : List Action → System → Type 0 where
    here : Run s [] s
    next :
        {acts more : List Action} {t u : System}
        → Run s acts t
        → Step t more u
        → Run s (acts ++ more) u
