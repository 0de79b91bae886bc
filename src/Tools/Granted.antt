-- ===== src/Tools/Granted.antt =====
-- main/tools/tool_mesh_command.c: nothing goes to a node but what the Guardian has allowed.
use esp32_agent_mesh.Prelude.{
  Bool-cases, if_cases, All, All-append, Bytes, codes, str_eq_iff, EspErr, ok, is_ok, Attempt, done,
  failed, ◌≡◌, refl, ap, inl, inr, not, Option, none, some, List, arith,
}
use esp32_agent_mesh.Mesh.Json.{JsonApi, parse_object, json_optional_string}
use esp32_agent_mesh.Mesh.Decisions.{policy_json_size, wait_policy_decision}
use esp32_agent_mesh.Mesh.Outputs.{output_json_size, wait_output_message}
use esp32_agent_mesh.Tools.Sending.{Outgoing, read_input, command_row, policy_row}
use esp32_agent_mesh.Tools.Waiting.{WaitContext}
use esp32_agent_mesh.Tools.MeshCommand.{
  SendEffect, publishes, notes, starts_task, SendReply, SendWorld, start_mesh_wait_task, watched,
  waited, follow, queue_command, on_decision, decision_status, decided, ask_printed,
  request_policy_decision, send_printed, send_read, send_command_execute,
}

module _ (api : JsonApi) where
  open api use {Json}

  -- The Guardian's allow for a command: the wait for its decision gives a text that parses as an
  -- object whose decision is "allow".
  pub record IsAllowed (w : SendWorld Json) (command_id : Bytes) : Type 0 where
    pub decision_json : Bytes
    pub decision : Json
    pub came :
        wait_policy_decision w.policy_made command_id policy_json_size w.decisions
        ≡ (ok, decision_json)
    pub parsed : parse_object api decision_json ≡ some decision
    pub allow : json_optional_string api decision (codes "decision") ≡ codes "allow"

  -- The texts that go out: the check, that asks the Guardian, and the command of the input, once
  -- the Guardian has allowed it.
  pub data IsDue (w : SendWorld Json) (input : Attempt (Outgoing Json)) : SendEffect → Type 0 where
    a_check : (text : Bytes) → IsDue w input (publishes w.check_topic text)
    a_command :
        (o : Outgoing Json) (text : Bytes)
        → input ≡ done o
        → w.print_row (command_row api o) ≡ some text
        → IsAllowed w o.command_id
        → IsDue w input (publishes o.topic text)
    a_note : (phase event status : Bytes) → IsDue w input (notes phase event status)
    a_wait :
        (o : Outgoing Json) (ctx : WaitContext)
        → input ≡ done o
        → IsAllowed w o.command_id
        → IsDue w input (starts_task ctx)

  status-IsAllowed :
      (w : SendWorld Json) (command_id decision_json : Bytes) (root : Option Json)
      → wait_policy_decision w.policy_made command_id policy_json_size w.decisions
        ≡ (ok, decision_json)
      → parse_object api decision_json ≡ root
      → decision_status api root ≡ ok
      → IsAllowed w command_id
  unfolding decision_status
  status-IsAllowed w command_id decision_json none came parsed h = absurd (cc h)
  status-IsAllowed w command_id decision_json (some root) came parsed h = record {
    decision_json = decision_json;
    decision = root;
    came = came;
    parsed = parsed;
    allow =
        (str_eq_iff (json_optional_string api root (codes "decision")) (codes "allow")).0
          (ground (arith, h));
  }

  decided-IsAllowed :
      (w : SendWorld Json) (command_id : Bytes) (answer : EspErr × Bytes)
      → wait_policy_decision w.policy_made command_id policy_json_size w.decisions ≡ answer
      → decided api answer ≡ ok
      → IsAllowed w command_id
  unfolding decided
  decided-IsAllowed w command_id (ok, decision_json) came h =
      status-IsAllowed w command_id decision_json (parse_object api decision_json) came refl h
  decided-IsAllowed w command_id (e, decision_json) came h = absurd (cc h)

  module _ (w : SendWorld Json) (input : Attempt (Outgoing Json)) (o : Outgoing Json)
      (payload : Bytes) (is_input : input ≡ done o)
      (is_payload : w.print_row (command_row api o) ≡ some payload) where
    Due : SendEffect → Type 0
    Due = IsDue w input

    watched-Due :
        (e : EspErr) (ctx : WaitContext) → IsAllowed w o.command_id → All Due (watched e ctx).1
    unfolding watched Due
    watched-Due ok ctx a = (a_wait o ctx is_input a, tt)
    watched-Due e ctx a = tt

    waited-Due : (answer : EspErr × Bytes) → All Due (waited o answer).1
    unfolding waited
    waited-Due (ok, output_json) = tt
    waited-Due (e, output_json) = tt

    follow-Due : IsAllowed w o.command_id → All Due (follow w o).1
    unfolding follow
    follow-Due a =
        if_cases (λ (f : SendReply × List SendEffect). All Due f.1) (not o.require_ack) _ _
          (λ n. tt)
          (λ acked.
            if_cases (λ (f : SendReply × List SendEffect). All Due f.1) o.async_wait _ _
              (λ s. watched-Due (start_mesh_wait_task w o).0 (start_mesh_wait_task w o).1 a)
              (λ s.
                waited-Due
                  (wait_output_message w.output_made o.command_id output_json_size w.outputs)))

    queue_command-Due :
        (e : EspErr) → IsAllowed w o.command_id → All Due (queue_command w o payload e).effects
    unfolding queue_command Due
    queue_command-Due ok a =
        (a_command o payload is_input is_payload a, (a_note _ _ _, follow-Due a))
    queue_command-Due e a = (a_command o payload is_input is_payload a, (a_note _ _ _, tt))

    on_decision-Due :
        (asked : List SendEffect) (e : EspErr)
        → All Due asked
        → (e ≡ ok → IsAllowed w o.command_id)
        → All Due (on_decision w o payload asked e).effects
    unfolding on_decision Due
    on_decision-Due asked ok d a =
        All-append Due asked _ d
          (a_note _ _ _, queue_command-Due (w.publish o.topic payload) (a refl))
    on_decision-Due asked e d a = All-append Due asked _ d (a_note _ _ _, tt)

    ask_printed-Due : (json : Option Bytes) → All Due (ask_printed api w o json).1
    unfolding ask_printed Due
    ask_printed-Due none = tt
    ask_printed-Due (some json) = (a_check json, tt)

    ask_printed-IsAllowed :
        (json : Option Bytes) → (ask_printed api w o json).0 ≡ ok → IsAllowed w o.command_id
    unfolding ask_printed
    ask_printed-IsAllowed none h = absurd (cc h)
    ask_printed-IsAllowed (some json) h = elim (Bool-cases (is_ok (w.publish w.check_topic json))) [
      | inl sent ↦ decided-IsAllowed w o.command_id _ refl (rw sent at h)
      | inr unsent ↦ absurd (cc (ap is_ok (rw unsent at h), unsent))
    ]

  send_printed-IsDue :
      (w : SendWorld Json) (o : Outgoing Json) (payload : Option Bytes)
      → w.print_row (command_row api o) ≡ payload
      → All (IsDue w (done o)) (send_printed api w o payload).effects
  unfolding send_printed request_policy_decision Due
  send_printed-IsDue w o none p = tt
  send_printed-IsDue w o (some payload) p =
      let check = w.print_row (policy_row api w.ts_ms o) in
      on_decision-Due w (done o) o payload refl p (ask_printed api w o check).1
        (ask_printed api w o check).0 (ask_printed-Due w (done o) o payload refl p check)
        (ask_printed-IsAllowed w (done o) o payload refl p check)

  send_read-IsDue :
      (w : SendWorld Json) (input : Attempt (Outgoing Json))
      → All (IsDue w input) (send_read api w input).effects
  unfolding send_read
  send_read-IsDue w (failed e) = tt
  send_read-IsDue w (done o) = send_printed-IsDue w o (w.print_row (command_row api o)) refl

  -- Whatever input the tool is called with, a text that it publishes is a check for the topic of
  -- checks, or the command that the input asks for, for its topic, and then the Guardian's decision
  -- on the command's id came and says "allow"; and a task waits for a result only then too.
  pub send_command_execute-IsDue :
      (w : SendWorld Json) (input_json : Bytes)
      → All
          (IsDue w (read_input api w.prefix w.empty w.made_id (parse_object api input_json)))
          (send_command_execute api w input_json).effects
  unfolding send_command_execute
  send_command_execute-IsDue w input_json =
      send_read-IsDue w (read_input api w.prefix w.empty w.made_id (parse_object api input_json))
