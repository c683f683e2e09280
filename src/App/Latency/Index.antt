-- ===== src/App/Latency/Index.antt =====
-- The index of internal/app/latency_trace.go: positions, identifiers and what a change keeps.
use mathlib.Core.Option
use talka.Prelude.{
  ℕ, zero, suc, ◌+◌, ◌≤◌, ◌≡◌, ◌≢◌, refl, ap, ◌∙◌, sym, Bool, true, not, ◌&&◌, List, [], ◌∷◌,
  Option, some, none, length, take, arith, if◌then◌else◌, inl, inr, Bool-cases,
}
use talka.Prelude.Bytes.{Bytes, bytes_eq, bytes_eq_iff}
use talka.App.Latency.{LatencyTrace, LatencyRecorder, lookup, reindex_from, change_at}

-- No trace has the identifier.
abbrev pub absent : Bytes → List LatencyTrace → Bool
absent id [] = true
absent id (t ∷ ts) = not (bytes_eq t.trace_id id) && absent id ts

abbrev pub Distinct : List LatencyTrace → Type 0
Distinct [] = Unit {0}
Distinct (t ∷ ts) = (absent t.trace_id ts ≡ true) × Distinct ts

-- At most as many traces as the limit, with distinct identifiers, and the index of their positions.
pub record WellFormed (r : LatencyRecorder) : Type 0 where
  pub bounded : length r.traces ≤ r.limit
  pub distinct : Distinct r.traces
  pub indexed : r.index ≡ reindex_from 0 r.traces []

-- The trace with an identifier, and its position.
abbrev pub find : Bytes → List LatencyTrace → Option LatencyTrace
find id [] = none
find id (t ∷ ts) = if bytes_eq t.trace_id id then some t else find id ts

abbrev pub position : ℕ → Bytes → List LatencyTrace → Option ℕ
position k id [] = none
position k id (t ∷ ts) = if bytes_eq t.trace_id id then some k else position (k + 1) id ts

abbrev orelse : Option ℕ → Option ℕ → Option ℕ
orelse none x = x
orelse (some a) x = some a

pub position-absent :
    (k : ℕ) (id : Bytes) (ts : List LatencyTrace) → absent id ts ≡ true → position k id ts ≡ none
position-absent k id [] h = refl
position-absent k id (t ∷ ts) h = ground (arith, position-absent (k + 1) id ts)

pub absent-position :
    (k : ℕ) (id : Bytes) (ts : List LatencyTrace) → position k id ts ≡ none → absent id ts ≡ true
absent-position k id [] h = refl
absent-position k id (t ∷ ts) h = ground (arith, absent-position (k + 1) id ts)

pub position_from :
    (k j : ℕ) (id : Bytes) (ts : List LatencyTrace) → position k id ts ≡ some j → k ≤ j
position_from k j id [] e = ground arith
position_from k j id (t ∷ ts) e = ground (arith, position_from (k + 1) j id ts)

pub lookup-reindex_from :
    (k : ℕ) (id : Bytes) (ts : List LatencyTrace) (index : List (Bytes × ℕ))
    → Distinct ts
    → lookup id (reindex_from k ts index) ≡ orelse (position k id ts) (lookup id index)
unfolding lookup reindex_from
lookup-reindex_from k id [] index d = refl
lookup-reindex_from k id (t ∷ ts) index (a, d) = elim (Bool-cases (bytes_eq t.trace_id id)) [
  | inl e ↦
      let same = (bytes_eq_iff t.trace_id id).0 e in
      ground (
        arith,
        lookup-reindex_from (k + 1) id ts ((t.trace_id, k) ∷ index) d,
        position-absent (k + 1) id ts (rw same at a),
      )
  | inr e ↦ ground (arith, lookup-reindex_from (k + 1) id ts ((t.trace_id, k) ∷ index) d)
]

pub absent-take :
    (n : ℕ) (id : Bytes) (ts : List LatencyTrace)
    → absent id ts ≡ true
    → absent id (take n ts) ≡ true
absent-take zero id ts h = refl
absent-take (suc n) id [] h = refl
absent-take (suc n) id (t ∷ ts) h = ground (arith, absent-take n id ts)

pub Distinct-take : (n : ℕ) (ts : List LatencyTrace) → Distinct ts → Distinct (take n ts)
Distinct-take zero ts d = tt
Distinct-take (suc n) [] d = tt
Distinct-take (suc n) (t ∷ ts) (a, d) = (absent-take n t.trace_id ts a, Distinct-take n ts d)

module _ (f : LatencyTrace → LatencyTrace)
    (keeps : (t : LatencyTrace) → (f t).trace_id ≡ t.trace_id) where
  pub length-change_at : (i : ℕ) (ts : List LatencyTrace) → length (change_at i f ts) ≡ length ts
  unfolding change_at
  length-change_at i [] = refl
  length-change_at zero (t ∷ ts) = refl
  length-change_at (suc i) (t ∷ ts) = ap suc (length-change_at i ts)

  reindex_from-change_at :
      (k i : ℕ) (ts : List LatencyTrace) (index : List (Bytes × ℕ))
      → reindex_from k (change_at i f ts) index ≡ reindex_from k ts index
  unfolding change_at reindex_from
  reindex_from-change_at k i [] index = refl
  reindex_from-change_at k zero (t ∷ ts) index = rw (keeps t) refl
  reindex_from-change_at k (suc i) (t ∷ ts) index =
      reindex_from-change_at (k + 1) i ts ((t.trace_id, k) ∷ index)

  absent-change_at :
      (i : ℕ) (id : Bytes) (ts : List LatencyTrace) → absent id (change_at i f ts) ≡ absent id ts
  unfolding change_at
  absent-change_at i id [] = refl
  absent-change_at zero id (t ∷ ts) = rw (keeps t) refl
  absent-change_at (suc i) id (t ∷ ts) = rw (absent-change_at i id ts) refl

  Distinct-change_at : (i : ℕ) (ts : List LatencyTrace) → Distinct ts → Distinct (change_at i f ts)
  unfolding change_at
  Distinct-change_at i [] d = tt
  Distinct-change_at zero (t ∷ ts) (a, d) = (rw (keeps t) a, d)
  Distinct-change_at (suc i) (t ∷ ts) (a, d) =
      (rw (absent-change_at i t.trace_id ts) a, Distinct-change_at i ts d)

  pub WellFormed-change_at :
      (r : LatencyRecorder) (i : ℕ)
      → WellFormed r
      → WellFormed (record r { traces = change_at i f r.traces })
  WellFormed-change_at r i w = record {
    bounded = rw (length-change_at i r.traces) w.bounded;
    distinct = Distinct-change_at i r.traces w.distinct;
    indexed = w.indexed ∙ sym (reindex_from-change_at 0 i r.traces []);
  }

  -- At its position the trace changes, and no other does.
  pub find-change_at :
      (k i : ℕ) (id : Bytes) (ts : List LatencyTrace)
      → position k id ts ≡ some (k + i)
      → find id (change_at i f ts) ≡ Option.map f (find id ts)
  unfolding change_at
  find-change_at k i id [] e = ground arith
  find-change_at k zero id (t ∷ ts) e = ground (arith, keeps t, position_from (k + 1) k id ts)
  find-change_at k (suc i) id (t ∷ ts) e = ground (arith, find-change_at (k + 1) i id ts)

  pub find-other :
      (i : ℕ) (k : ℕ) (id other : Bytes) (ts : List LatencyTrace)
      → position k id ts ≡ some (k + i)
      → id ≢ other
      → find other (change_at i f ts) ≡ find other ts
  unfolding change_at
  find-other i k id other [] e d = refl
  find-other zero k id other (t ∷ ts) e d = ground (
    arith,
    keeps t,
    position_from (k + 1) k id ts,
    bytes_eq_iff t.trace_id id,
    bytes_eq_iff t.trace_id other,
  )
  find-other (suc i) k id other (t ∷ ts) e d = ground (arith, find-other i (k + 1) id other ts)

pub indexed_position :
    (r : LatencyRecorder) (id : Bytes) → WellFormed r → lookup id r.index ≡ position 0 id r.traces
unfolding lookup
indexed_position r id w =
    rw w.indexed (ground (arith, lookup-reindex_from 0 id r.traces [] w.distinct))
