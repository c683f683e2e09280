-- ===== src/App/Latency.antt =====
-- internal/app/latency_trace.go: the record of the last traces, newest first, with an index from a
-- trace's identifier to its position. The lock is left out.
pub mod Index
pub mod Laws
use talka.Prelude.{
  ℕ, zero, suc, ◌+◌, ◌/◌, ◌≤◌, Bool, true, false, List, [], ◌∷◌, Option, some, none, length, take,
  leb, ltb, set, get_elem?, if◌then◌else◌,
}
use talka.Prelude.Int.{ℤ, pos, negsuc, is_positive}
use talka.Prelude.Bytes.{Bytes, bytes_eq, is_empty}

-- A time is the clock's reading, 0 for the zero time.
pub record LatencyTrace : Type 0 where
  pub trace_id : Bytes
  pub device_id : Bytes
  pub accepted_at : ℕ
  pub audio_stop_received_at : ℕ
  pub completed_at : ℕ
  pub insert_completed_at : ℕ
  pub buffered_messages : ℤ
  pub frames : ℤ
  pub audio_ms_estimate : ℤ
  pub decrypt_decode_ms : ℤ
  pub asr_ms : ℤ
  pub llm_ms : ℤ
  pub response_write_ms : ℤ
  pub insert_ms : ℤ
  pub total_after_stop_ms : ℤ
  pub raw_transcript_chars : ℤ
  pub final_text_chars : ℤ
  pub error_stage : Bytes
  pub error : Bytes

pub record LatencyRecorder : Type 0 where
  pub limit : ℕ
  pub traces : List LatencyTrace
  pub index : List (Bytes × ℕ)

abbrev pub default_latency_trace_limit : ℕ
default_latency_trace_limit = 20

positive_or_default : ℤ → ℕ
positive_or_default (pos zero) = default_latency_trace_limit
positive_or_default (pos (suc n)) = suc n
positive_or_default (negsuc n) = default_latency_trace_limit

-- `NewLatencyRecorder`.
pub new_latency_recorder : ℤ → LatencyRecorder
unfolding positive_or_default
new_latency_recorder limit = record { limit = positive_or_default limit; traces = []; index = [] }

-- The value of a key of the map.
pub lookup : Bytes → List (Bytes × ℕ) → Option ℕ
lookup id [] = none
lookup id ((key, i) ∷ rest) = if bytes_eq key id then some i else lookup id rest

-- `reindexLocked`: a later position of the same identifier replaces an earlier one.
pub reindex_from : ℕ → List LatencyTrace → List (Bytes × ℕ) → List (Bytes × ℕ)
reindex_from i [] index = index
reindex_from i (t ∷ ts) index = reindex_from (i + 1) ts ((t.trace_id, i) ∷ index)

reindex : LatencyRecorder → LatencyRecorder
reindex r = record r { index = reindex_from 0 r.traces [] }

-- `f(&traces[i])`; out of range the source panics, and here nothing changes.
pub change_at : ℕ → (LatencyTrace → LatencyTrace) → List LatencyTrace → List LatencyTrace
change_at i f [] = []
change_at zero f (t ∷ ts) = f t ∷ ts
change_at (suc i) f (t ∷ ts) = t ∷ change_at i f ts

abbrev pub new_trace : Bytes → Bytes → ℕ → LatencyTrace
new_trace id device accepted = record {
  trace_id = id;
  device_id = device;
  accepted_at = accepted;
  audio_stop_received_at = 0;
  completed_at = 0;
  insert_completed_at = 0;
  buffered_messages = pos 0;
  frames = pos 0;
  audio_ms_estimate = pos 0;
  decrypt_decode_ms = pos 0;
  asr_ms = pos 0;
  llm_ms = pos 0;
  response_write_ms = pos 0;
  insert_ms = pos 0;
  total_after_stop_ms = pos 0;
  raw_transcript_chars = pos 0;
  final_text_chars = pos 0;
  error_stage = [];
  error = [];
}

-- The recorder with a new trace in front, cut to its limit.
push : LatencyTrace → LatencyRecorder → LatencyRecorder
push t r = reindex (record r {
  traces =
      if ltb r.limit (length (t ∷ r.traces)) then take r.limit (t ∷ r.traces) else t ∷ r.traces;
})

-- `Start`.
start : Bytes → Bytes → ℕ → LatencyRecorder → LatencyRecorder
start id device accepted r = if is_empty id then r else elim (lookup id r.index) [
  | some i ↦ record r {
    traces = change_at i (λ t. record t { device_id = device; accepted_at = accepted }) r.traces;
  }
  | none ↦ push (new_trace id device accepted) r
]

-- `Update`.
pub update : Bytes → (LatencyTrace → LatencyTrace) → LatencyRecorder → LatencyRecorder
update id f r = if is_empty id then r else elim (lookup id r.index) [
  | none ↦ r
  | some i ↦ record r { traces = change_at i f r.traces }
]

-- `durationMilliseconds` of a duration in nanoseconds.
duration_milliseconds : ℤ → ℕ
duration_milliseconds (negsuc n) = 0
duration_milliseconds (pos n) = if leb n 0 then 0 else if ltb n 1000000 then 1 else n / 1000000
