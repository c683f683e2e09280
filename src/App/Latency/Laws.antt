-- ===== src/App/Latency/Laws.antt =====
-- internal/app/latency_trace.go: every history of calls keeps the recorder well-formed, and a trace
-- is found and changed under its identifier.
use mathlib.Core.Option
use talka.Prelude.{
  ℕ, ◌+◌, ◌≡◌, ◌≢◌, refl, ap, ◌∙◌, sym, true, List, [], ◌∷◌, some, none, length, length-take, ltb,
  arith, if◌then◌else◌, Option-cases, inl, inr, Bool-cases,
}
use talka.Prelude.Int.{ℤ}
use talka.Prelude.Bytes.{Bytes, bytes_eq, bytes_eq_iff, is_empty}
use talka.App.Latency.{
  LatencyTrace, LatencyRecorder, lookup, reindex_from, reindex, new_trace, push, start, update,
  new_latency_recorder,
}
use talka.App.Latency.Index.{
  absent, WellFormed, find, position, absent-position, Distinct-take, indexed_position,
  WellFormed-change_at, find-change_at, find-other,
}

-- A new trace in front of those that have another identifier.
push-WellFormed :
    (t : LatencyTrace) (r : LatencyRecorder)
    → WellFormed r
    → absent t.trace_id r.traces ≡ true
    → WellFormed (push t r)
unfolding push reindex
push-WellFormed t r w a = elim (Bool-cases (ltb r.limit (length (t ∷ r.traces)))) [
  | inl e ↦ record {
    bounded = rw e (ground (arith, length-take r.limit (t ∷ r.traces)));
    distinct = rw e (Distinct-take r.limit (t ∷ r.traces) (a, w.distinct));
    indexed = refl;
  }
  | inr e ↦ record {
    bounded = rw e (ground arith);
    distinct = rw e (a, w.distinct);
    indexed = refl;
  }
]

-- A change of a trace that keeps its identifier, as all of the program's do.
pub record Edit : Type 0 where
  pub apply : LatencyTrace → LatencyTrace
  pub keeps : (t : LatencyTrace) → (apply t).trace_id ≡ t.trace_id

pub data Call : Type 0 where
  starts : (id device : Bytes) (accepted : ℕ) → Call
  updates : (id : Bytes) → Edit → Call

step : LatencyRecorder → Call → LatencyRecorder
step r (starts id device accepted) = start id device accepted r
step r (updates id e) = update id e.apply r

pub run : LatencyRecorder → List Call → LatencyRecorder
run r [] = r
run r (c ∷ cs) = run (step r c) cs

start-WellFormed :
    (r : LatencyRecorder) (id device : Bytes) (accepted : ℕ)
    → WellFormed r
    → WellFormed (start id device accepted r)
unfolding start
start-WellFormed r id device accepted w = elim (Bool-cases (is_empty id)) [
  | inl e ↦ rw e w
  | inr e ↦ elim (Option-cases (lookup id r.index)) [
    | inl q ↦
        rw (e, q)
          (push-WellFormed (new_trace id device accepted) r w
            (absent-position 0 id r.traces (sym (indexed_position r id w) ∙ q)))
    | inr (i, q) ↦
        rw (e, q)
          (WellFormed-change_at (λ t. record t { device_id = device; accepted_at = accepted })
            (λ t. refl) r i w)
  ]
]

update-WellFormed :
    (r : LatencyRecorder) (id : Bytes) (e : Edit) → WellFormed r → WellFormed (update id e.apply r)
unfolding update
update-WellFormed r id edit w = elim (Bool-cases (is_empty id)) [
  | inl e ↦ rw e w
  | inr e ↦ elim (Option-cases (lookup id r.index)) [
    | inl q ↦ rw (e, q) w
    | inr (i, q) ↦ rw (e, q) (WellFormed-change_at edit.apply edit.keeps r i w)
  ]
]

pub run-WellFormed : (r : LatencyRecorder) (cs : List Call) → WellFormed r → WellFormed (run r cs)
unfolding run step
run-WellFormed r [] w = w
run-WellFormed r (starts id device accepted ∷ cs) w =
    run-WellFormed (start id device accepted r) cs (start-WellFormed r id device accepted w)
run-WellFormed r (updates id e ∷ cs) w =
    run-WellFormed (update id e.apply r) cs (update-WellFormed r id e w)

pub new-WellFormed : (limit : ℤ) → WellFormed (new_latency_recorder limit)
unfolding new_latency_recorder reindex_from
new-WellFormed limit = record { bounded = omega arith; distinct = tt; indexed = refl }

-- After any history of starts and updates of a new recorder, it holds at most `limit` traces, their
-- identifiers are distinct, and the index holds their positions.
pub recorder-WellFormed :
    (limit : ℤ) (cs : List Call) → WellFormed (run (new_latency_recorder limit) cs)
recorder-WellFormed limit cs = run-WellFormed (new_latency_recorder limit) cs (new-WellFormed limit)

position-find :
    (k : ℕ) (id : Bytes) (ts : List LatencyTrace) → position k id ts ≡ none → find id ts ≡ none
position-find k id [] e = refl
position-find k id (t ∷ ts) e = ground (arith, position-find (k + 1) id ts)

-- An update under an identifier that is not empty of a well-formed recorder changes the trace with its identifier, if there is one, and
-- no other.
pub update_finds :
    (r : LatencyRecorder) (id other : Bytes) (e : Edit)
    → WellFormed r
    → id ≢ []
    → find other (update id e.apply r).traces ≡ (
        if bytes_eq id other then Option.map e.apply (find other r.traces) else find other r.traces)
unfolding update
update_finds r [] other edit w ne = absurd (ne refl)
update_finds r (c ∷ id) other edit w ne =
    let at = indexed_position r (c ∷ id) w in
    elim (Option-cases (lookup (c ∷ id) r.index)) [
      | inl q ↦
          ground
            (arith, position-find 0 (c ∷ id) r.traces (sym at ∙ q), bytes_eq_iff (c ∷ id) other)
      | inr (i, q) ↦ elim (Bool-cases (bytes_eq (c ∷ id) other)) [
        | inl e ↦ ground (
          arith,
          find-change_at edit.apply edit.keeps 0 i (c ∷ id) r.traces
              (sym at ∙ q ∙ ap some (omega arith)),
          bytes_eq_iff (c ∷ id) other,
        )
        | inr e ↦ ground (
          arith,
          find-other edit.apply edit.keeps i 0 (c ∷ id) other r.traces
              (sym at ∙ q ∙ ap some (omega arith)),
          bytes_eq_iff (c ∷ id) other,
        )
      ]
    ]
