-- ===== src/Tools/Routing.antt =====
-- main/tools/tool_registry.c: a coordinator does not drive outputs by itself.
-- The way of a call that goes over the mesh, and what is due there.
use esp32_agent_mesh.Prelude.{
  leb, Bool-cases, length, All, find?, Bytes, codes, str_eq, str_eq_refl, done, ◌≤◌, ◌<◌, ◌≡◌, refl,
  subst, ◌⊎◌, inl, inr, Bool, true, false, none, some, List, [], ◌∷◌, ◌++◌, arith,
}
use esp32_agent_mesh.Node.Profile.{NodeProfile}
use esp32_agent_mesh.Node.Roles.{role_control, role_is_coordinator}
use esp32_agent_mesh.Mesh.Json.{JsonApi, parse_object}
use esp32_agent_mesh.Tools.Sending.{
  is_control_action, command_topic, or_failed, Outgoing, read_input,
}
use esp32_agent_mesh.Tools.MeshCommand.{SendWorld, send_command_execute}
use esp32_agent_mesh.Tools.Granted.{IsDue, send_command_execute-IsDue}
use esp32_agent_mesh.Tools.Registry.{
  Tool, max_tools, register_tool, tool_registry_execute, Routed, via_mesh, locally, or_object,
  asks_local, args_or_empty, route_printed, route_control_action_to_mesh,
  coordinator_control_or_local,
}
use esp32_agent_mesh.Tools.Rerouted.{route_row, IsControlCommand, read_input-IsControlCommand}
use esp32_agent_mesh.Mesh.Rows.{IsRead}

module _ (api : JsonApi) (w : SendWorld api.Json) (without : api.Json → Bytes → api.Json) where
  -- The arguments that go along: those of the input, without the word on where to run.
  abbrev pub sent_args : Bytes → api.Json
  sent_args input_json =
      without (args_or_empty api w without (parse_object api (or_object input_json)))
        (codes "local")

  -- What becomes of a call on a node: it is run there, with its action and input; or the mesh command
  -- tool reads it as a command for the control nodes, and publishes nothing but what is due for it.
  pub data IsRouted (me : NodeProfile) (action input_json topic : Bytes) : Routed → Type 0 where
    run_here :
        (role_is_coordinator me ≡ false)
          ⊎ (asks_local api (parse_object api (or_object input_json)) ≡ true)
        → IsRouted me action input_json topic (locally action input_json)
    sent_on :
        (payload : Bytes) (o : Outgoing api.Json)
        → role_is_coordinator me ≡ true
        → asks_local api (parse_object api (or_object input_json)) ≡ false
        → read_input api w.prefix w.empty w.made_id (parse_object api payload) ≡ done o
        → IsControlCommand action topic (sent_args input_json) o
        → All (IsDue api w (done o)) (send_command_execute api w payload).effects
        → IsRouted me action input_json topic (via_mesh (send_command_execute api w payload))

  sent_effects-IsDue :
      (payload : Bytes) (o : Outgoing api.Json)
      → read_input api w.prefix w.empty w.made_id (parse_object api payload) ≡ done o
      → All (IsDue api w (done o)) (send_command_execute api w payload).effects
  sent_effects-IsDue payload o e =
      subst (λ i. All (IsDue api w i) (send_command_execute api w payload).effects) e
        (send_command_execute-IsDue api w payload)

  -- Where there is memory for the text of a request for one of the four actions that drive an output,
  -- which the JSON library reads as it was printed, and the topic of the control nodes fits its
  -- buffer: on a coordinator, a call whose input does not parse to an object that says "local" goes to
  -- the mesh command tool, which reads it as a command for the control nodes with the call's action,
  -- its arguments less "local", and the defaults, and publishes nothing but what is due for that
  -- command; any other call is run on the board, with its action and its input.
  pub coordinator_control_or_local-IsRouted :
      (me : NodeProfile) (action input_json topic payload : Bytes)
      → is_control_action action ≡ true
      → or_failed (command_topic w.prefix [] role_control) ≡ done topic
      → w.print_row (route_row action (sent_args input_json)) ≡ some payload
      → IsRead api (route_row action (sent_args input_json)) payload
      → IsRouted me action input_json topic
          (coordinator_control_or_local api w without me action input_json)
  unfolding coordinator_control_or_local route_control_action_to_mesh route_printed
  coordinator_control_or_local-IsRouted me action input_json topic payload acts named printed r =
      let (o, read, is) =
        read_input-IsControlCommand api action payload (sent_args input_json) r w.prefix w.made_id
          topic w.empty acts named in
      elim (Bool-cases (role_is_coordinator me)) [
        | inr c ↦ rw c (run_here (inl c))
        | inl c ↦ elim (Bool-cases (asks_local api (parse_object api (or_object input_json)))) [
          | inl l ↦ rw (c, l) (run_here (inr l))
          | inr l ↦
              rw (c, l, printed) (sent_on payload o c l read is (sent_effects-IsDue payload o read))
        ]
      ]

module _ {R : Type 0} where
  find?-append :
      (test : Tool R → Bool) (xs ys : List (Tool R))
      → find? test xs ≡ none
      → find? test (xs ++ ys) ≡ find? test ys
  unfolding find?
  find?-append test [] ys h = refl
  find?-append test (x ∷ xs) ys h = elim (Bool-cases (test x)) [
    | inl e ↦ absurd (cc (rw e at h))
    | inr e ↦ rw e (find?-append test xs ys (rw e at h))
  ]

  find?-front :
      (test : Tool R → Bool) (xs ys : List (Tool R)) (t : Tool R)
      → find? test xs ≡ some t
      → find? test (xs ++ ys) ≡ some t
  unfolding find?
  find?-front test [] ys t h = absurd (cc h)
  find?-front test (x ∷ xs) ys t h = elim (Bool-cases (test x)) [
    | inl e ↦ rw e (rw e at h)
    | inr e ↦ rw e (find?-front test xs ys t (rw e at h))
  ]

  -- A call by a name runs the tool that was registered first under it: a later registration does not
  -- change what a name that is taken runs; one under a new name is run under it if there was room for
  -- it among the forty, and has no effect if there was none.
  pub tool_registry_execute-register_tool :
      (t : Tool R) (tools : List (Tool R)) (name input_json : Bytes)
      → ((u : Tool R)
          → find? (λ t. str_eq t.name name) tools ≡ some u
          → tool_registry_execute (register_tool t tools) name input_json
            ≡ some (u.execute input_json))
        × (find? (λ (t : Tool R). str_eq t.name name) tools ≡ none
            → length tools < max_tools
            → t.name ≡ name
            → tool_registry_execute (register_tool t tools) name input_json
              ≡ some (t.execute input_json))
        × (max_tools ≤ length tools → register_tool t tools ≡ tools)
  unfolding tool_registry_execute register_tool
  tool_registry_execute-register_tool t tools name input_json =
      let test = λ (t : Tool R). str_eq t.name name in
      elim (Bool-cases (leb max_tools (length tools))) [
        | inl full ↦ (λ u e. rw (full, e), λ n l e. absurd (ground (arith, full, l)), λ l. rw full)
        | inr room ↦ (
          λ u e. rw (room, find?-front test tools (t ∷ []) u e),
          λ n l e.
              let own : test t ≡ true = rw e (str_eq_refl name) in
              let found : find? test (t ∷ []) ≡ some t = unfold find? in rw own in
              rw (room, find?-append test tools (t ∷ []) n, found),
          λ l. absurd (ground (arith, room, l)),
        )
      ]
