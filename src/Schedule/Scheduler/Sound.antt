-- ===== src/Schedule/Scheduler/Sound.antt =====
-- The invariant of `run` in src/schedule/scheduler/memory_aware.rs between two rounds.
pub mod Pushed
pub mod Synced
pub mod Rounds
use my_nn_engine.Prelude.{ℕ, ◌<◌, ◌≡◌, Bool, true, ◌||◌, List, ◌∷◌, Option, some, length, ◌==◌}
use my_nn_engine.Schedule.Ir.{KernelId, StreamId, Step}
use my_nn_engine.Schedule.Kernels.{contains}
use my_nn_engine.Schedule.Deps.{lookup}
use my_nn_engine.Schedule.Order.{Run}
use my_nn_engine.Schedule.Order.Topological.{preds_of}
use my_nn_engine.Schedule.Scheduler.{Fixed, Scheduler, KernelInfo}
use my_nn_engine.Schedule.Scheduler.Trace.{recorded, waited, before}
use my_nn_engine.Schedule.Scheduler.Extends.{Core}

-- Before the step of the first kernel, the event of the second one was recorded, and the first one's
-- stream waits for it unless it is the second one's stream.
pub record IsSynced (i j : KernelInfo) (earlier : List Step) : Type 0 where
  pub recorded_earlier : recorded j.event earlier ≡ true
  pub waited_earlier : (j.stream == i.stream) || waited i.stream j.event earlier ≡ true

-- A kernel that has been scheduled: it runs on one of the streams, and its event is recorded.
pub record IsEntered (fixed : Fixed) (done : List KernelId) (s : Scheduler) (k : KernelId)
    (info : KernelInfo) : Type 0 where
  pub is_done : contains done k ≡ true
  pub on_stream : info.stream < fixed.num_streams
  pub is_recorded : recorded info.event s.steps ≡ true

pub record Sound (fixed : Fixed) (done : List KernelId) (s : Scheduler) : Type 0 where
  pub core : Core fixed.num_streams s
  pub run : Run fixed.deps done s.order
  pub loads : length s.stream_load ≡ fixed.num_streams
  pub all_entered :
      (k : KernelId)
      → contains done k ≡ true
      → (info : KernelInfo) × (lookup k s.kernel_info ≡ some info)
  pub entered :
      (k : KernelId) (info : KernelInfo)
      → lookup k s.kernel_info ≡ some info
      → IsEntered fixed done s k info
  pub synced :
      (k p : KernelId) (i j : KernelInfo)
      → lookup k s.kernel_info ≡ some i
      → lookup p s.kernel_info ≡ some j
      → contains (preds_of fixed.deps k) p ≡ true
      → IsSynced i j (before i.event s.steps)
