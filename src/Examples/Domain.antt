-- ===== src/Examples/Domain.antt =====
-- The theorems on tasks, prompts and the codec at concrete inputs.
use ngy_coding_agent.Base.{◌≡◌, refl, ok, [], ◌∷◌, ◌+◌, ◌≤◌, length, List, ℕ}
use ngy_coding_agent.Domain.Task.{
  NewTask, try_new, trim, trim_start, queued, running, failed, can_transition_to,
}
use ngy_coding_agent.Domain.Lifecycle.{rank, Run-bound}
use ngy_coding_agent.Domain.Prompt.{IsPrompt, try_new-IsPrompt, IsPrompt-try_new}
use ngy_coding_agent.Domain.Event.{TaskEventKind, TaskEventPayload, kind}
use ngy_coding_agent.Store.Codec.{
  event_kind_text, parse_event_kind, payload_from_value, payload_json,
}
use ngy_coding_agent.Store.Codec.Roundtrip.{
  parse_event_kind-event_kind_text, payload_from_value-payload_json,
}
use ngy_coding_agent.Examples.Data.{task_input}

Run-bound_example : rank queued + length (running ∷ failed ∷ []) ≤ 2
unfolding can_transition_to
Run-bound_example = Run-bound queued (running ∷ failed ∷ []) (refl, (refl, tt))

abbrev fix : List ℕ
fix = b'f' ∷ b'i' ∷ b'x' ∷ []

abbrev fix_task : NewTask
fix_task = record { client_request_id = 107; repository_id = 3; prompt = fix }

accepted : try_new 107 3 (task_input 107).prompt ≡ ok fix_task
unfolding try_new trim trim_start
accepted = refl

try_new-IsPrompt_example : IsPrompt fix_task.prompt
try_new-IsPrompt_example = try_new-IsPrompt 107 3 (task_input 107).prompt accepted

IsPrompt-try_new_example : try_new 107 3 fix ≡ ok fix_task
IsPrompt-try_new_example = IsPrompt-try_new 107 3 fix try_new-IsPrompt_example

parse_event_kind-event_kind_text_example :
    parse_event_kind (event_kind_text TaskEventKind.diff_updated) ≡ ok TaskEventKind.diff_updated
parse_event_kind-event_kind_text_example =
    parse_event_kind-event_kind_text TaskEventKind.diff_updated

abbrev plan : TaskEventPayload
plan = TaskEventPayload.plan_updated (record { revision = 1; items = [] })

payload_from_value-payload_json_example :
    payload_from_value (kind plan) (payload_json plan) 7 4 ≡ ok plan
payload_from_value-payload_json_example = payload_from_value-payload_json plan 7 4 tt
