-- ===== src/Agent/Replies.antt =====
-- main/agent/agent_loop.c: what a turn keeps to, whatever the model answers.
-- The messages for the channel among the effects.
use esp32_agent_mesh.Prelude.{
  Bool-cases, Option-cases, length, All, All-append, Bytes, codes, str_eq, ℕ, zero, suc, ◌+◌, ◌≤◌,
  ◌≡◌, refl, sym, ap, subst, ◌≢◌, inl, inr, Bool, true, false, none, some, List, [], ◌∷◌, ◌++◌, map,
}
use esp32_agent_mesh.Bus.Messages.{Msg, chan_system}
use esp32_agent_mesh.Agent.Calls.{ToolCall}
use esp32_agent_mesh.Agent.World.{
  Response, ChatMessage, from_assistant, tool_results, AgentEffect, notes_contact, executes,
  tells_call, reports_call, saves, traces, tells_final, pushes, drops, MeshRequest, AgentWorld,
  Turn,
}
use esp32_agent_mesh.Agent.Turn.{
  input_of, run_guarded, run_call, fallback_after, build_tool_results, send_working, after_tools,
  react,
}
use esp32_agent_mesh.Agent.Requests.{
  workflow_steps, request_of, try_execute_deterministic_light_workflow,
}

-- With whether the queue took them.
abbrev pub handed : List AgentEffect → List (Msg × Bool)
handed [] = []
handed (pushes m ∷ es) = (m, true) ∷ handed es
handed (drops m ∷ es) = (m, false) ∷ handed es
handed (_ ∷ es) = handed es

pub handed-append : (es fs : List AgentEffect) → handed (es ++ fs) ≡ handed es ++ handed fs
handed-append [] fs = refl
handed-append (pushes m ∷ es) fs = ap (◌∷◌ (m, true)) (handed-append es fs)
handed-append (drops m ∷ es) fs = ap (◌∷◌ (m, false)) (handed-append es fs)
handed-append (notes_contact a b ∷ es) fs = handed-append es fs
handed-append (executes a b ∷ es) fs = handed-append es fs
handed-append (tells_call a b c ∷ es) fs = handed-append es fs
handed-append (reports_call a b c ∷ es) fs = handed-append es fs
handed-append (saves a b ∷ es) fs = handed-append es fs
handed-append (traces a b ∷ es) fs = handed-append es fs
handed-append (tells_final a b ∷ es) fs = handed-append es fs

-- Rounds of calls: what the model said with its calls, and a result for each call, under its id, in
-- order.
pub data AreAnswered : ℕ → List ChatMessage → Type 0 where
  no_rounds : AreAnswered 0 []
  round :
      (n : ℕ) (ms : List ChatMessage) (said : Bytes) (calls : List ToolCall)
      (results : List (Bytes × Bytes))
      → AreAnswered n ms
      → map (λ (r : Bytes × Bytes). r.0) results ≡ map (λ (c : ToolCall). c.id) calls
      → AreAnswered (n + 1) (ms ++ (from_assistant said calls ∷ tool_results results ∷ []))

module _ (w : AgentWorld) (msg : Msg) where
  react-again :
      (left : ℕ) (t : Turn) (resp : Response)
      → w.chat (send_working w msg t).messages ≡ some resp
      → resp.tool_use ≡ true
      → react w msg (suc left) t ≡ react w msg left (after_tools w msg resp (send_working w msg t))
  unfolding react
  react-again left t resp e u = rw (react, e, u) refl

  pub react-keeps :
      (P : ℕ → Turn → Type 0)
      → ((left : ℕ) (t : Turn) → P left t → P left (send_working w msg t))
      → ((left : ℕ) (t : Turn) (resp : Response)
          → P (suc left) t
          → P left (after_tools w msg resp t))
      → (left : ℕ) (t : Turn) → P left t
      → (n : ℕ) × P n (react w msg left t).1
  unfolding react
  react-keeps P status tools zero t p = (0, p)
  react-keeps P status tools (suc left) t p =
      let t' = send_working w msg t in
      let p' = status (suc left) t p in
      elim (Option-cases (w.chat t'.messages)) [
        | inl e ↦ (suc left, rw (react, e) p')
        | inr (resp, e) ↦ elim (Bool-cases resp.tool_use) [
          | inr f ↦ (suc left, rw (react, e, f) p')
          | inl u ↦
              let (n, q) =
                react-keeps P status tools left (after_tools w msg resp t')
                  (tools left t' resp p') in
              (n, subst (λ r. P n r.1) (sym (react-again left t resp e u)) q)
        ]
      ]

  -- A message from outside the system that asks for at least two lights in a sequence, not here, and
  -- the workflow that is made of it: the first light at once, a pause before each other.
  pub record IsSequence (payload : Bytes) : Type 0 where
    pub off_system : str_eq msg.channel chan_system ≡ false
    pub elsewhere : w.words.has_local_marker msg.content ≡ false
    pub of_lights : w.words.is_light_request msg.content ≡ true
    pub in_order : w.words.has_sequence_marker msg.content ≡ true
    pub several : 2 ≤ length (w.words.color_sequence msg.content)
    pub printed :
        w.print_workflow
          (workflow_steps w msg (w.words.delay_ms msg.content) (w.words.color_sequence msg.content))
        ≡ some payload

  -- What a request asks for: the temperature and the humidity at a sensor node, or a colour of the
  -- light at a control node.
  pub data IsAsked : MeshRequest → Type 0 where
    a_reading :
        w.words.is_temperature_request msg.content ≡ true
        → w.words.is_weather_request msg.content ≡ false
        → IsAsked (request_of w msg (codes "sensor_agent") (codes "read_temperature_humidity") none)
    a_light :
        (color : Bytes)
        → w.words.is_light_request msg.content ≡ true
        → w.words.light_color msg.content ≡ some color
        → IsAsked (request_of w msg (codes "control_agent") (codes "set_status_light") (some color))

  -- A message from outside the system that asks for something of another node, and the request's text.
  pub record IsRequest (payload : Bytes) : Type 0 where
    pub off_system : str_eq msg.channel chan_system ≡ false
    pub elsewhere : w.words.has_local_marker msg.content ≡ false
    pub request : MeshRequest
    pub asked : IsAsked request
    pub printed : w.print_request request ≡ some payload

  -- A tool that runs was asked for by a call that the guard let pass, on its patched input; or it is
  -- one of the two that run without the model, on the input that was made from the message.
  pub data IsAllowed : AgentEffect → Type 0 where
    ran :
        (call : ToolCall)
        → w.guard call msg ≡ none
        → IsAllowed (executes call.name (input_of w msg call))
    made_workflow :
        (payload : Bytes)
        → IsSequence payload
        → IsAllowed (executes (codes "automation_create_workflow") payload)
    sent_command :
        (payload : Bytes)
        → IsRequest payload
        → (try_execute_deterministic_light_workflow w msg).0 ≡ none
        → IsAllowed (executes (codes "mesh_send_command") payload)
    other : (e : AgentEffect) → ((name input : Bytes) → e ≢ executes name input) → IsAllowed e

  run_call-IsAllowed : (call : ToolCall) → All IsAllowed (run_call w msg call).1
  unfolding run_guarded
  run_call-IsAllowed call = elim (Option-cases (w.guard call msg)) [
    | inr (blocked, e) ↦
        rw e (other _ (λ n i e. cc e), (other _ (λ n i e. cc e), (other _ (λ n i e. cc e), tt)))
    | inl e ↦ rw e (
      other _ (λ n i e. cc e),
      (ran call e, (other _ (λ n i e. cc e), (other _ (λ n i e. cc e), tt))),
    )
  ]

  pub build_tool_results-IsAllowed :
      (calls : List ToolCall) (fallback : Bytes)
      → All IsAllowed (build_tool_results w msg calls fallback).1
  unfolding build_tool_results
  build_tool_results-IsAllowed [] fallback = tt
  build_tool_results-IsAllowed (call ∷ calls) fallback =
      All-append IsAllowed (run_call w msg call).1
        (build_tool_results w msg calls (fallback_after w msg call fallback)).1
        (run_call-IsAllowed call)
        (build_tool_results-IsAllowed calls (fallback_after w msg call fallback))

  pub results_ids :
      (calls : List ToolCall) (fallback : Bytes)
      → map (λ (r : Bytes × Bytes). r.0) (build_tool_results w msg calls fallback).0
        ≡ map (λ (c : ToolCall). c.id) calls
  unfolding build_tool_results run_guarded
  results_ids [] fallback = refl
  results_ids (call ∷ calls) fallback =
      let rest = results_ids calls (fallback_after w msg call fallback) in
      elim (Option-cases (w.guard call msg)) [
        | inl e ↦ rw e (ap (◌∷◌ call.id) rest)
        | inr (blocked, e) ↦ rw e (ap (◌∷◌ call.id) rest)
      ]

  pub build_tool_results-handed :
      (calls : List ToolCall) (fallback : Bytes)
      → handed (build_tool_results w msg calls fallback).1 ≡ []
  unfolding build_tool_results run_guarded
  build_tool_results-handed [] fallback = refl
  build_tool_results-handed (call ∷ calls) fallback =
      let rest = build_tool_results-handed calls (fallback_after w msg call fallback) in
      elim (Option-cases (w.guard call msg)) [ inl e ↦ rw e rest | inr (blocked, e) ↦ rw e rest ]
