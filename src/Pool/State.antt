-- ===== src/Pool/State.antt =====
-- The data of internal/pool/pool.go: slots, prompt sequences, the pool, and the places where a
-- goroutine of the pool can be between two critical sections of `p.mu`.
-- A `*Slot` is an index into `heap`; a `PoolClient` is a number that tells the workers apart.
use otto_gateway.Base.{
  ℕ, String, Bool, false, Option, none, some, List, [], ◌∷◌, if◌then◌else◌, str_eq,
}

pub record Config : Type 0 where
  pub size : ℕ
  pub max_worker_turns : ℕ
  pub idle_recycle_after : ℕ
  pub idle_recycle_memory_bytes : ℕ
  pub worker_memory_supported : Bool
  -- `ReadWorkerMemory`: none where the function is nil.
  pub read_worker_memory : Option (ℕ → Option ℕ)

-- `none` in a time stands for Go's zero time.
pub record Slot : Type 0 where
  pub label : String
  pub client : Option ℕ
  pub dead : Bool
  pub turns : ℕ
  pub respawning : Bool
  pub spawned_at : Option ℕ
  pub user_requests_since_spawn : ℕ
  pub last_user_release_at : Option ℕ
  pub checked_out : Bool

pub record Sequence : Type 0 where
  pub holds : ℕ
  pub prompt_pending : Bool
  pub prompt_active : Bool
  pub cancel_requested : Bool
  pub cancel_complete : Bool

-- `&promptSequenceState{}`
abbrev pub new_sequence : Sequence
new_sequence = record {
  holds = 0;
  prompt_pending = false;
  prompt_active = false;
  cancel_requested = false;
  cancel_complete = false;
}

pub data RecycleReason : Type 0 where
  max_turns idle_memory : RecycleReason

pub record RecycleTrigger : Type 0 where
  pub reason : RecycleReason
  pub turns : ℕ
  pub user_requests : ℕ
  pub pid : ℕ
  pub rss_bytes : ℕ
  pub idle : ℕ

-- What the pool asks of a worker, in the order in which it asks.
pub data ClientCall : Type 0 where
  cancels : ℕ → String → ClientCall
  closes : ℕ → ClientCall

pub record Pool : Type 0 where
  pub cfg : Config
  -- the channel `slots`, oldest first; its capacity is `cfg.size`
  pub slots : List ℕ
  pub all : List ℕ
  pub heap : ℕ → Slot
  pub session_slots : List (String × ℕ)
  pub session_sequences : List (String × Sequence)
  -- `closed` is the flag under the lock, `closing` the channel that `Close` closes first
  pub closed : Bool
  pub closing : Bool
  pub recycles_in_flight : ℕ
  pub respawns : ℕ
  pub recycles : ℕ
  pub last_spawn_err : Option ℕ
  -- the calls made to workers, newest first
  pub calls : List ClientCall
  -- slots that nothing of the pool refers to any more: kept to state that there are none
  pub lost : List ℕ

pub data Cause : Type 0 where
  lazily : Cause
  recycling : RecycleTrigger → Cause

pub data Err : Type 0 where
  pool_closed acquire_cancelled pool_exhausted unknown_session : Err
  respawn_deferred respawn_failed closed_during_respawn new_session_failed : Err

-- Where a goroutine that owns a slot stands.
pub data Task : Type 0 where
  -- NewSession: after the receive, after the `closed` check, waiting for the worker's session
  acquired : ℕ → Task
  checked : ℕ → Task
  opening : ℕ → Task
  -- respawnSlot: entered, and waiting for the factory; NewSession's branch for its error
  respawning : ℕ → Cause → Task
  spawning : ℕ → Cause → Task
  respawn_aborted : ℕ → Task
  -- completeSessionRelease, releaseOrRecycle, returnOrRecycle
  completing : ℕ → Task
  releasing : ℕ → Task
  returning : ℕ → Option RecycleTrigger → Task
  -- recycleSlot: started, back from respawnSlot (with its success), and in its deferred decrement
  recycle_started : ℕ → RecycleTrigger → Task
  recycle_respawned : ℕ → Bool → Task
  recycle_ended : Task
  -- sweepIdleWorkers and inspectIdleWorker
  swept : ℕ → Task
  inspecting : ℕ → Task
  -- runCatalogRefresh: after the receive, and after the slot is marked
  refreshing : ℕ → Task
  probing : ℕ → Task

-- How a critical section ends: in another one, or by returning to the caller.
pub data Next : Type 0 where
  go : Task → Next
  fails : Err → Next
  opens : String → Next
  finish : Next

module _ {ℓ} {A : Type ℓ} where
  -- Go maps as association lists with one entry for a key at most.
  unfoldable pub lookup : String → List (String × A) → Option A
  lookup k [] = none
  lookup k ((j, v) ∷ m) = if str_eq j k then some v else lookup k m

  unfoldable pub delete : String → List (String × A) → List (String × A)
  delete k [] = []
  delete k ((j, v) ∷ m) = if str_eq j k then m else (j, v) ∷ delete k m

  unfoldable pub assign : String → A → List (String × A) → List (String × A)
  unfolding delete
  assign k v m = (k, v) ∷ delete k m
