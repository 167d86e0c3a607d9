-- ===== src/Workflow/SideEffects.antt =====
-- `recordWorkflowTaskEvent` and `normalizeWorkflowTaskEvent`
-- (packages/database/src/control-plane.ts).
use page2web_mcp.Common.{
  ℕ, String, Bool, true, false, not, ◌&&◌, ◌||◌, Option, none, some, [], leb, is_some, some_and,
  get_or, last?, gets, or_raise, raise_if, ◌>>=◌, ◌>>◌,
}
use page2web_mcp.Common.Dict.{get}
use page2web_mcp.Common.Text.{is_sha256, is_operation, is_version}
use page2web_mcp.Workflow.Types.{
  invalid_state, Event, EventType, Payload, task_side_effect_started, task_side_effect_completed,
  task_side_effect_failed, Env,
}
use page2web_mcp.Workflow.Store.{Method, workflow_task, append_event, assert_lease}

pub data SideEffectEvent : Type 0 where
  started finished broken : SideEffectEvent

abbrev side_effect_type : SideEffectEvent → EventType
side_effect_type started = task_side_effect_started
side_effect_type finished = task_side_effect_completed
side_effect_type broken = task_side_effect_failed

abbrev pub max_duration_ms : ℕ
max_duration_ms = 3600000

abbrev pub max_cost_micros : ℕ
max_cost_micros = 1000000000

abbrev at_most : ℕ → Option ℕ → Bool
at_most n none = false
at_most n (some v) = leb v n

abbrev or_absent : Option String → (String → Bool) → Bool
or_absent none p = true
or_absent (some v) p = p v

-- The keys that the event's payload may have besides `operation` and `inputHash`, and those that
-- it must have.
abbrev payload_shape : SideEffectEvent → Payload → Bool
payload_shape started p = not (
    is_some p.output_hash
    || is_some p.duration_ms
    || is_some p.version
    || is_some p.cost_micros
    || p.failed_outcome)
payload_shape finished p =
    not p.failed_outcome
    && at_most max_duration_ms p.duration_ms
    && some_and p.output_hash is_sha256
payload_shape broken p =
    not (is_some p.output_hash || is_some p.version || is_some p.cost_micros)
    && at_most max_duration_ms p.duration_ms
    && p.failed_outcome

-- `normalizeWorkflowTaskEvent`, which answers whether it does not throw.
unfoldable pub is_valid_payload : SideEffectEvent → Payload → Bool
is_valid_payload type p =
    payload_shape type p
    && some_and p.operation is_operation
    && some_and p.input_hash is_sha256
    && or_absent p.version is_version
    && (at_most max_cost_micros p.cost_micros || not (is_some p.cost_micros))

-- `recordWorkflowTaskEvent`
unfoldable pub record_task_event :
    Env → ℕ → String → String → ℕ → SideEffectEvent → Payload → Method Event
unfolding workflow_task assert_lease is_valid_payload append_event
record_task_event E now worker id generation type payload = do
  task ← workflow_task id
  assert_lease now worker task generation
  raise_if (not (is_valid_payload type payload)) invalid_state
  append_event E now task.workflow_run_id (side_effect_type type) (some task.id) none (some payload)
  found ← gets (λ s. last? (get_or (get task.workflow_run_id s.events) []))
  or_raise found invalid_state
