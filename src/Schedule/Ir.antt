-- ===== src/Schedule/Ir.antt =====
-- The execution plan of src/schedule/ir.rs. An identifier is the number that it wraps, and an
-- arena id of the `id_arena` crate is its index.
use my_nn_engine.Prelude.{ℕ, Bool, List, Option}

abbrev pub ValueId : Type 0
ValueId = ℕ

abbrev pub KernelId : Type 0
KernelId = ℕ

abbrev pub ChunkId : Type 0
ChunkId = ℕ

abbrev pub ArenaId : Type 0
ArenaId = ℕ

abbrev pub StreamId : Type 0
StreamId = ℕ

abbrev pub EventId : Type 0
EventId = ℕ

pub data Device : Type 0 where
  cpu cuda : Device

pub data MemoryTier : Type 0 where
  gpu_arena host_arena : MemoryTier

abbrev pub tier : Device → MemoryTier
tier cpu = host_arena
tier cuda = gpu_arena

-- The derived equalities.
abbrev pub device_eq : Device → Device → Bool
device_eq cpu cpu = Bool.true
device_eq cuda cuda = Bool.true
device_eq cpu cuda = Bool.false
device_eq cuda cpu = Bool.false

abbrev pub tier_eq : MemoryTier → MemoryTier → Bool
tier_eq gpu_arena gpu_arena = Bool.true
tier_eq host_arena host_arena = Bool.true
tier_eq gpu_arena host_arena = Bool.false
tier_eq host_arena gpu_arena = Bool.false

pub record ExecutionContext : Type 0 where
  pub device : Device
  pub stream : StreamId

pub record ArenaInfo : Type 0 where
  pub id : ArenaId
  pub tier : MemoryTier
  pub size : ℕ

pub record ChunkInfo : Type 0 where
  pub id : ChunkId
  pub arena : ArenaId
  pub size : ℕ
  pub offset : ℕ

pub record EventInfo : Type 0 where
  pub id : EventId
  pub stream : StreamId

pub data AllocPlace : Type 0 where
  chunk : ChunkId → AllocPlace
  session_state : ValueId → AllocPlace
  initializer : ValueId → AllocPlace
  input : ValueId → AllocPlace
  output : ValueId → AllocPlace

pub data BindingRole : Type 0 where
  input output workspace : BindingRole

pub record ValueBinding : Type 0 where
  pub value : ValueId
  pub role : BindingRole
  pub place : AllocPlace
  pub is_first_use : Bool

pub record KernelStep : Type 0 where
  pub kernel : KernelId
  pub context : ExecutionContext
  pub bindings : List ValueBinding
  pub records_event : Option EventId

pub record SyncWaitStep : Type 0 where
  pub context : ExecutionContext
  pub event : EventId

pub record TransferStep : Type 0 where
  pub src : ValueBinding
  pub dst : ValueBinding
  pub context : ExecutionContext
  pub records_event : Option EventId

pub data Step : Type 0 where
  kernel : KernelStep → Step
  sync_wait : SyncWaitStep → Step
  transfer : TransferStep → Step

pub record ExecutionPlan : Type 0 where
  pub steps : List Step
  pub chunks : List ChunkInfo
  pub arenas : List ArenaInfo
  pub events : List EventInfo
  pub stream_count : ℕ
