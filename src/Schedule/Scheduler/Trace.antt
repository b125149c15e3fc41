-- ===== src/Schedule/Scheduler/Trace.antt =====
-- What the steps that the scheduler of src/schedule/scheduler/memory_aware.rs pushes record and wait
-- for, the newest step first.
use my_nn_engine.Prelude.{
  ℕ, ◌<◌, ◌≡◌, refl, Bool, true, false, ◌&&◌, ◌||◌, List, [], ◌∷◌, ◌++◌, Option, none, some, ◌==◌,
  if◌then◌else◌, arith,
}
use my_nn_engine.Schedule.Ir.{StreamId, EventId, Device, Step, sync_wait, kernel, transfer}
use my_nn_engine.Schedule.Scheduler.{wait_step}

abbrev pub is_event : Option EventId → EventId → Bool
is_event none e = false
is_event (some f) e = f == e

abbrev pub records : Step → EventId → Bool
records (kernel k) e = is_event k.records_event e
records (sync_wait w) e = false
records (transfer t) e = is_event t.records_event e

abbrev pub waits : Step → EventId → Bool
waits (kernel k) e = false
waits (sync_wait w) e = w.event == e
waits (transfer t) e = false

abbrev pub stream_of : Step → StreamId
stream_of (kernel k) = k.context.stream
stream_of (sync_wait w) = w.context.stream
stream_of (transfer t) = t.context.stream

-- Whether one of the steps records the event.
abbrev pub recorded : EventId → List Step → Bool
recorded e [] = false
recorded e (step ∷ steps) = if records step e then true else recorded e steps

-- Whether one of the steps makes the stream wait for the event.
abbrev pub waited : StreamId → EventId → List Step → Bool
waited stream e [] = false
waited stream e (step ∷ steps) =
    if waits step e && stream_of step == stream then true else waited stream e steps

-- The steps pushed before the last one that records the event.
abbrev pub before : EventId → List Step → List Step
before e [] = []
before e (step ∷ steps) = if records step e then steps else before e steps

-- A step may follow the earlier ones: it waits only for events that were recorded, records an event
-- that was not, and runs on one of `n` streams.
pub record Follows (n : ℕ) (step : Step) (earlier : List Step) : Type 0 where
  pub waits_recorded : (e : EventId) → waits step e ≡ true → recorded e earlier ≡ true
  pub records_new : (e : EventId) → records step e ≡ true → recorded e earlier ≡ false
  pub on_stream : stream_of step < n

abbrev pub IsTraced : ℕ → List Step → Type 0
IsTraced n [] = Unit
IsTraced n (step ∷ earlier) = Follows n step earlier × IsTraced n earlier

pub wait-Follows :
    (n : ℕ) (device : Device) (stream : StreamId) (event : EventId) (earlier : List Step)
    → stream < n
    → recorded event earlier ≡ true
    → Follows n (wait_step device stream event) earlier
wait-Follows n device stream event earlier l h = record {
  waits_recorded = λ e w. let same : event ≡ e = ground arith in rw (← same) h;
  records_new = λ e w. cc;
  on_stream = l;
}

pub IsTraced-tail :
    (n : ℕ) (later earlier : List Step) → IsTraced n (later ++ earlier) → IsTraced n earlier
IsTraced-tail n [] earlier h = h
IsTraced-tail n (step ∷ later) earlier h = IsTraced-tail n later earlier h.1

pub recorded-append :
    (e : EventId) (xs ys : List Step) → recorded e (xs ++ ys) ≡ recorded e xs || recorded e ys
recorded-append e [] ys = refl
recorded-append e (x ∷ xs) ys = ground (arith, recorded-append e xs ys)
