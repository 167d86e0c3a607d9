-- ===== src/Workflow/Types.antt =====
-- The records of packages/database/src/workflow.ts and the workflow tables of
-- `InMemoryControlPlaneRepository` (packages/database/src/control-plane.ts). Times are
-- milliseconds; an optional field is an `Option`.
use page2web_mcp.Common.{ℕ, String, Bool, true, false, Option, List}
use page2web_mcp.Common.Dict.{Dict}
use page2web_mcp.Workflow.Phases.{Phase}

-- `RepositoryErrorCode`, the codes that these methods throw.
pub data RepositoryError : Type 0 where
  forbidden not_found idempotency_conflict invalid_state lease_lost cancelled_error :
      RepositoryError
  wait_expired : RepositoryError

-- `WorkflowRunStatus`, also of a task and of an analysis run.
pub data Status : Type 0 where
  queued running waiting succeeded failed cancelled : Status

abbrev pub is_queued : Status → Bool
is_queued queued = true
is_queued _ = false

abbrev pub is_running : Status → Bool
is_running running = true
is_running _ = false

abbrev pub is_waiting : Status → Bool
is_waiting waiting = true
is_waiting _ = false

abbrev pub is_succeeded : Status → Bool
is_succeeded succeeded = true
is_succeeded _ = false

abbrev pub is_cancelled : Status → Bool
is_cancelled cancelled = true
is_cancelled _ = false

-- `["succeeded", "failed", "cancelled"].includes(status)`
abbrev pub is_terminal : Status → Bool
is_terminal succeeded = true
is_terminal failed = true
is_terminal cancelled = true
is_terminal _ = false

-- `["waiting", "queued"].includes(status)`
abbrev pub is_parked : Status → Bool
is_parked waiting = true
is_parked queued = true
is_parked _ = false

pub data Classification : Type 0 where
  transient rate_limited permanent : Classification

abbrev pub is_permanent : Classification → Bool
is_permanent permanent = true
is_permanent _ = false

pub record Run : Type 0 where
  pub id : String
  pub organization_id : String
  pub project_id : String
  pub source_snapshot_id : String
  pub analysis_run_id : Option String
  pub reviewed_analysis_run_id : Option String
  pub status : Status
  pub current_phase : Phase
  pub input_hash : String
  pub version : ℕ
  pub cancel_requested_at : Option ℕ
  pub cancelled_at : Option ℕ
  pub error_code : Option String
  pub created_at : ℕ
  pub updated_at : ℕ

pub record Task : Type 0 where
  pub id : String
  pub organization_id : String
  pub project_id : String
  pub workflow_run_id : String
  pub phase : Phase
  pub status : Status
  pub idempotency_key : String
  pub input_hash : String
  pub output_hash : Option String
  pub checkpoint_reference : Option String
  pub output_reference : Option String
  pub wait_key_hash : Option String
  pub wait_reason : Option String
  pub wait_expires_at : Option ℕ
  pub resumed_at : Option ℕ
  pub cancel_requested_at : Option ℕ
  pub cancelled_at : Option ℕ
  pub lease_generation : ℕ
  pub lease_owner : Option String
  pub lease_expires_at : Option ℕ
  pub attempts : ℕ
  pub max_attempts : ℕ
  pub retry_classification : Option Classification
  pub error_code : Option String
  pub available_at : ℕ
  pub reconciled_at : Option ℕ
  pub created_at : ℕ
  pub updated_at : ℕ

-- `WorkflowEventType`
pub data EventType : Type 0 where
  workflow_created workflow_completed workflow_failed workflow_cancel_requested : EventType
  workflow_cancelled workflow_reconciled : EventType
  task_created task_claimed task_heartbeat task_completed task_retry_scheduled : EventType
  task_failed task_waiting task_resumed task_cancelled task_reconciled : EventType
  task_side_effect_started task_side_effect_completed task_side_effect_failed : EventType

pub record Payload : Type 0 where
  pub operation : Option String
  pub input_hash : Option String
  pub output_hash : Option String
  pub duration_ms : Option ℕ
  pub version : Option String
  pub cost_micros : Option ℕ
  pub failed_outcome : Bool

pub record Event : Type 0 where
  pub id : String
  pub organization_id : String
  pub project_id : String
  pub workflow_run_id : String
  pub task_id : Option String
  pub sequence : ℕ
  pub version : ℕ
  pub type : EventType
  pub code : Option String
  pub payload : Option Payload
  pub created_at : ℕ

pub record Completion : Type 0 where
  pub run : Run
  pub task : Task
  pub next_task : Option Task

-- `WorkflowCommandRecord`
pub record Command (A : Type 0) : Type 0 where
  pub input_hash : String
  pub result : A

pub record WaitToken : Type 0 where
  pub workflow_run_id : String
  pub task_id : String
  pub expires_at : ℕ
  pub consumed_at : Option ℕ
  pub resume_idempotency_key : Option String
  pub resume_input_hash : Option String

pub data Role : Type 0 where
  owner editor viewer : Role

abbrev pub is_viewer : Role → Bool
is_viewer viewer = true
is_viewer _ = false

pub record Actor : Type 0 where
  pub id : String
  pub organization_id : String
  pub role : Role

pub data ProjectStatus : Type 0 where
  created analyzing analyzed project_failed : ProjectStatus

pub data SourceType : Type 0 where
  website openapi github : SourceType

pub record Project : Type 0 where
  pub id : String
  pub organization_id : String
  pub created_by : String
  pub name : String
  pub source_type : SourceType
  pub url : String
  pub status : ProjectStatus
  pub created_at : ℕ

-- `AnalysisRunRecord`, but for the provenance of its provider.
pub record Analysis : Type 0 where
  pub id : String
  pub organization_id : String
  pub project_id : String
  pub requested_by : String
  pub status : Status
  pub attempts : ℕ
  pub lease_owner : Option String
  pub lease_expires_at : Option ℕ
  pub error_code : Option String
  pub created_at : ℕ
  pub updated_at : ℕ

pub data CheckpointState : Type 0 where
  waiting consumed completed failed cancelled expired : CheckpointState

abbrev pub is_open : CheckpointState → Bool
is_open CheckpointState.waiting = true
is_open CheckpointState.consumed = true
is_open _ = false

abbrev pub is_completed : CheckpointState → Bool
is_completed CheckpointState.completed = true
is_completed _ = false

pub data CleanupStatus : Type 0 where
  pending running succeeded failed : CleanupStatus

-- `StoredWebsiteAuthenticationCheckpoint`, the fields that the workflow methods and the clean-up
-- read or write.
pub record Checkpoint : Type 0 where
  pub organization_id : String
  pub project_id : String
  pub analysis_run_id : String
  pub workflow_task_id : String
  pub source_snapshot_id : String
  pub source_identity_hash : String
  pub target_origin_digest : String
  pub checkpoint_reference : String
  pub authentication_evidence_reference : Option String
  pub state : CheckpointState
  pub expires_at : ℕ
  pub terminal_at : Option ℕ
  pub cleanup_status : Option CleanupStatus
  pub cleanup_idempotency_key : String
  pub cleanup_attempts : ℕ
  pub cleanup_available_at : Option ℕ
  pub cleanup_lease_owner : Option String
  pub cleanup_lease_expires_at : Option ℕ
  pub cleanup_lease_generation : ℕ
  pub cleanup_completed_at : Option ℕ
  pub cleanup_error_code : Option String
  pub updated_at : ℕ

-- The private tables. `#workflowCommands` is split by the operation that its keys begin with, so
-- that each part holds results of one type. `uuids` counts the draws of `randomUUID`.
pub record Repository : Type 0 where
  pub projects : Dict Project
  pub analyses : Dict Analysis
  pub analysis_available_at : Dict ℕ
  pub checkpoints : Dict Checkpoint
  pub runs : Dict Run
  pub tasks : Dict Task
  pub events : Dict (List Event)
  pub completions : Dict (Command Completion)
  pub failures : Dict (Command Task)
  pub resumes : Dict (Command Task)
  pub cancels : Dict (Command Run)
  pub wait_tokens : Dict WaitToken
  pub claim_order : Dict ℕ
  pub claim_sequence : ℕ
  pub uuids : ℕ

-- What the methods take from outside: SHA-256 in hexadecimal, the texts of `randomUUID` (the n-th
-- draw), and the option `activeTaskQuota`.
pub record Env : Type 0 where
  pub sha256 : String → String
  pub uuid : ℕ → String
  pub active_task_quota : Option ℕ
