-- ===== src/Runtime/Calls.antt =====
-- One round of the loop over tool_calls in _run_loop of agent_runtime.py, with the audit entry after
-- the tool and the trace record; and the whole loop over the calls of a message.
use genesis_agents.Base.{
  String, Bool, false, ◌&&◌, not, Option, none, some, List, [], ◌∷◌, ◌==◌, contains, get_or,
  if◌then◌else◌,
}
use genesis_agents.Base.Json.{Json, Fields, null, bool, number, text, array, object}
use genesis_agents.Base.Result.{Result, ok, raise}
use genesis_agents.Policy.Check.{is_prohibited, prohibition_group}
use genesis_agents.Envelope.Values.{get_key}
use genesis_agents.Envelope.Answers.{EnvelopeError, prohibited_refusal, or_null, fields}
use genesis_agents.Grants.Token.{Codec}
use genesis_agents.Runtime.State.{
  Call, Job, Link, Record, State, Progress, going, crashed, and_then, is_ok, is_dict, is_truthy,
  refusal, shown, emitted, appended, Crash,
}
use genesis_agents.Runtime.Dispatch.{say, answer, args_of, first_chain, second_chain}

-- `tool_result if isinstance(tool_result, dict) else {"ok": False}`
abbrev pub outputs : Json → Json
outputs v = if is_dict v then v else object (fields (("ok", bool false) ∷ []))

-- The value of tool_result, which every branch has set.
abbrev pub result_of : State → Json
result_of s = get_or s.tool_result null

-- The audit entry for a tool that was called.
unfoldable pub append_event : Call → State → State
append_event c s =
    if s.tool_executed
    then if c.event_ok
      then say (appended c.name (args_of c) (outputs (result_of s))) s
      else answer (refusal "audit_append_failed" c.name) s
    else s

-- `child_ok` and its neighbours in the record of a genesis_call.
unfoldable pub link_of : Json → Link
unfolding get_key is_truthy
link_of v = record {
  target_agent_slug =
      if is_truthy (or_null (get_key "target_agent_slug" v))
      then or_null (get_key "target_agent_slug" v)
      else get_or (get_key "agent" v) (text "");
  child_job_id = or_null (get_key "child_job_id" v);
  child_session_id = or_null (get_key "child_session_id" v);
  child_ok = get_or (get_key "child_ok" v) (bool (is_ok v));
}

abbrev pub row : Call → Fields → Json → State → Option Link → Record
row c args v s link = record {
  turn = s.turn;
  tool_name = c.name;
  tool_call_id = c.id;
  arguments = shown args;
  ok = is_ok v;
  link = link;
}

-- The record, and for a genesis_call the trace entry of the subagent and the event.
unfoldable pub trace_call : Job → Call → Fields → Json → State → State
unfolding link_of get_key is_truthy
trace_call job c args v s =
    let l = link_of v in
    if c.name == "genesis_call" && is_dict v
    then record s {
      tool_call_records = row c args v s (some l) ∷ s.tool_call_records;
      subagent_records =
          record {
            parent_job_id = job.job_id;
            child_job_id = l.child_job_id;
            child_agent_slug = l.target_agent_slug;
            task = get_or (get_key "task" (object args)) (text "");
            status = if is_truthy l.child_ok then "ok" else "failed";
          }
          ∷ s.subagent_records;
      effects = emitted "subagent.returned" c.name ∷ s.effects;
    }
    else record s { tool_call_records = row c args v s none ∷ s.tool_call_records }

-- `args.items()` raises where the arguments are no dictionary.
abbrev pub record_call : Job → Call → Json → State → Progress
record_call job c null s = crashed Crash.attribute_error s
record_call job c (bool b) s = crashed Crash.attribute_error s
record_call job c (number n) s = crashed Crash.attribute_error s
record_call job c (text t) s = crashed Crash.attribute_error s
record_call job c (array xs) s = crashed Crash.attribute_error s
record_call job c (object args) s = going (trace_call job c args (result_of s) s)

-- After the dispatch: the audit entry and the record.
unfoldable pub conclude : Job → Call → State → Progress
unfolding append_event
conclude job c s = record_call job c (args_of c) (append_event c s)

-- prohibited_refusal raises a ValueError on an error code it does not know.
abbrev pub refused_by_group : Result EnvelopeError Json → State → Progress
refused_by_group (ok v) s = going (answer v s)
refused_by_group (raise e) s = crashed Crash.value_error s

-- `get_tool(fn_name)` is None, or the name is not advertised.
abbrev pub is_open_to : Job → String → Bool
is_open_to job name = job.registered name && contains job.tools_advertised name

module _ (codec : Codec Json) where
  -- From the prohibition check to the value of tool_result.
  unfoldable pub dispatch : Job → Call → State → Progress
  unfolding first_chain second_chain
  dispatch job c s =
      if is_prohibited c.name (some job.slug)
      then refused_by_group
          (prohibited_refusal c.name (prohibition_group c.name) (some (text job.slug)) c.request_id)
          (say (emitted "tool.prohibited" c.name) s)
      else if not (is_open_to job c.name)
      then going (answer (refusal "tool_not_allowed" c.name) s)
      else second_chain job c (first_chain codec job c s)

  -- One round of `for tc in tool_calls`.
  unfoldable pub run_call : Job → Call → State → Progress
  unfolding dispatch conclude
  run_call job c s = and_then (dispatch job c (record s { tool_executed = false })) (conclude job c)

  abbrev pub run_calls : Job → List Call → State → Progress
  run_calls job [] s = going s
  run_calls job (c ∷ cs) s = and_then (run_call job c s) (run_calls job cs)
