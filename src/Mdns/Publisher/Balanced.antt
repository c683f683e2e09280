-- ===== src/Mdns/Publisher/Balanced.antt =====
-- The processes of the publisher of internal/mdns/publisher.go: each is started, taken and killed in
-- turn, however its calls interleave.
use talka.Prelude.{
  ◌∙◌, ℕ, ◌+◌, ◌≡◌, refl, Bool, true, false, Option, none, some, List, [], ◌∷◌, ◌++◌, Result, arith,
  if◌then◌else◌, ◌==◌, inl, inr, Bool-cases, Option-cases, Result-cases,
}
use talka.Prelude.Int.{ℤ, is_positive}
use talka.Prelude.Bytes.{Bytes}
use talka.Mdns.{Descriptor, txt_records, validate_txt}
use talka.Mdns.Publisher.{
  Publisher, Action, System, Step, Run, start_called, stop_called, stop_ends, here, next, start,
  run_process, take_process, kill_process,
}

-- The reference for the process of the publisher, which follows the actions one by one. It has no
-- next state where a process would start beside it, or one be taken that is not there.
abbrev pub after : Option ℕ → List Action → Option (Option ℕ)
after there [] = some there
after none (Action.starts p args ∷ acts) = after (some p) acts
after (some q) (Action.starts p args ∷ acts) = none
after none (Action.takes p ∷ acts) = none
after (some q) (Action.takes p ∷ acts) = if q == p then after none acts else none
after none (Action.kills p e ∷ acts) = after none acts
after (some q) (Action.kills p e ∷ acts) = after (some q) acts

-- How often a process was started, how often `Kill` was called for it, and how often it is still to
-- be killed or the one of the publisher.
abbrev pub started_times : ℕ → List Action → ℕ
started_times q [] = 0
started_times q (Action.starts p args ∷ acts) = (if p == q then 1 else 0) + started_times q acts
started_times q (Action.takes p ∷ acts) = started_times q acts
started_times q (Action.kills p e ∷ acts) = started_times q acts

abbrev pub killed_times : ℕ → List Action → ℕ
killed_times q [] = 0
killed_times q (Action.starts p args ∷ acts) = killed_times q acts
killed_times q (Action.takes p ∷ acts) = killed_times q acts
killed_times q (Action.kills p e ∷ acts) = (if p == q then 1 else 0) + killed_times q acts

abbrev pub among : ℕ → List ℕ → ℕ
among q [] = 0
among q (p ∷ ps) = (if p == q then 1 else 0) + among q ps

abbrev pub is_process : ℕ → Option ℕ → ℕ
is_process q none = 0
is_process q (some p) = if p == q then 1 else 0

abbrev pub held : ℕ → System → ℕ
held q s = among q s.stopping + is_process q s.publisher.process

-- The state is consistent: started exactly if there is a process.
abbrev pub Consistent : Publisher → Type 0
Consistent p = elim p.process [ none ↦ p.started ≡ false | some q ↦ p.started ≡ true ]

after-append :
    (x y : Option ℕ) (xs ys : List Action) → after x xs ≡ some y → after x (xs ++ ys) ≡ after y ys
after-append x y [] ys h = ground (arith, h)
after-append none y (Action.starts p args ∷ acts) ys h = after-append (some p) y acts ys h
after-append (some q) y (Action.starts p args ∷ acts) ys h = cc
after-append none y (Action.takes p ∷ acts) ys h = cc
after-append (some q) y (Action.takes p ∷ acts) ys h = elim (Bool-cases (q == p)) [
  | inl e ↦ ground (arith, e, h, after-append none y acts ys)
  | inr e ↦ ground (arith, e, h)
]
after-append none y (Action.kills p e ∷ acts) ys h = after-append none y acts ys h
after-append (some q) y (Action.kills p e ∷ acts) ys h = after-append (some q) y acts ys h

started_times-append :
    (q : ℕ) (xs ys : List Action)
    → started_times q (xs ++ ys) ≡ started_times q xs + started_times q ys
started_times-append q [] ys = omega arith
started_times-append q (Action.starts p args ∷ acts) ys =
    omega (arith, started_times-append q acts ys)
started_times-append q (Action.takes p ∷ acts) ys = started_times-append q acts ys
started_times-append q (Action.kills p e ∷ acts) ys = started_times-append q acts ys

killed_times-append :
    (q : ℕ) (xs ys : List Action)
    → killed_times q (xs ++ ys) ≡ killed_times q xs + killed_times q ys
killed_times-append q [] ys = omega arith
killed_times-append q (Action.starts p args ∷ acts) ys = killed_times-append q acts ys
killed_times-append q (Action.takes p ∷ acts) ys = killed_times-append q acts ys
killed_times-append q (Action.kills p e ∷ acts) ys = omega (arith, killed_times-append q acts ys)

among-append : (q : ℕ) (xs ys : List ℕ) → among q (xs ++ ys) ≡ among q xs + among q ys
among-append q [] ys = omega arith
among-append q (x ∷ xs) ys = omega (arith, among-append q xs ys)

-- What a part of a run keeps of the publisher and its processes.
pub record Follows (s : System) (acts : List Action) (t : System) : Type 0 where
  pub owns : after s.publisher.process acts ≡ some t.publisher.process
  pub consistent : Consistent t.publisher
  pub balance : (q : ℕ) → started_times q acts + held q s ≡ killed_times q acts + held q t

module _ (unicode : Bytes → Bytes) (itoa : ℤ → Bytes) where
  start-Follows :
      (done : Bool) (d : Descriptor) (port : ℤ) (runner : Result Bytes ℕ) (s : System)
      → Consistent s.publisher
      → Follows s
          (start unicode itoa done d port runner s.publisher).1.0
          (record s { publisher = (start unicode itoa done d port runner s.publisher).0 })
  unfolding start run_process
  start-Follows true d port runner s c = record { owns = refl; consistent = c; balance = λ q. refl }
  start-Follows false d port runner s c = elim (Bool-cases (is_positive port)) [
    | inr q ↦ record {
      owns = ground (arith, q);
      consistent = ground (arith, q, c);
      balance = λ x. ground (arith, q);
    }
    | inl q ↦ elim (Result-cases (validate_txt unicode (txt_records d))) [
      | inl (e, v) ↦ record {
        owns = ground (arith, q, v);
        consistent = ground (arith, q, v, c);
        balance = λ x. ground (arith, q, v);
      }
      | inr (y, v) ↦ elim (Result-cases runner) [
        | inl (e, r) ↦ record {
          owns = ground (arith, q, v, r, c);
          consistent = ground (arith, q, v, r, c);
          balance = λ x. ground (arith, q, v, r, c);
        }
        | inr (process, r) ↦ record {
          owns = ground (arith, q, v, r, c);
          consistent = ground (arith, q, v, r, c);
          balance = λ x. ground (arith, q, v, r, c);
        }
      ]
    ]
  ]

  Step-Follows :
      {s t : System} {acts : List Action}
      → Step unicode itoa s acts t
      → Consistent s.publisher
      → Follows s acts t
  unfolding take_process kill_process
  Step-Follows {s} (start_called done d port runner) c = start-Follows done d port runner s c
  Step-Follows {s} stop_called c = elim (Option-cases s.publisher.process) [
    | inl none' ↦ record {
      owns = ground (arith, none');
      consistent = refl;
      balance = λ q. ground (arith, none');
    }
    | inr (process, is) ↦ record {
      owns = ground (arith, is);
      consistent = refl;
      balance = λ q. ground (arith, is);
    }
  ]
  Step-Follows {s} (stop_ends qs rest q kill wait split) c = record {
    owns = elim (Option-cases s.publisher.process) [
      | inl none' ↦ ground (arith, none')
      | inr (process, is) ↦ ground (arith, is)
    ];
    consistent = c;
    balance = λ x. ground (arith, split, among-append x qs (q ∷ rest), among-append x qs rest);
  }

  -- However calls of `Start` and of `Stop` interleave, and whatever fails: the publisher starts a
  -- process only when it has none, and `Stop` takes the one that it has. Call a process held while it
  -- is the one of the publisher or is still to be killed by a running `Stop`: a process is started,
  -- or held before, as often as `Kill` is called for it or it is held after. So none is forgotten
  -- before `Kill` is called for it, and `Kill` is called once for each start.
  pub run-Follows :
      {s t : System} {acts : List Action}
      → Run unicode itoa s acts t
      → Consistent s.publisher
      → Follows s acts t
  run-Follows here c = record { owns = refl; consistent = c; balance = λ q. refl }
  run-Follows {s} {t} (next {acts} {more} {t = m} r st) c =
      let u = run-Follows r c in
      let v = Step-Follows st u.consistent in
      record {
        owns = after-append s.publisher.process m.publisher.process acts more u.owns ∙ v.owns;
        consistent = v.consistent;
        balance = λ q. omega (
          arith,
          u.balance q,
          v.balance q,
          started_times-append q acts more,
          killed_times-append q acts more,
        );
      }
