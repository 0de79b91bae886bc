-- ===== src/Agent/Keeping.antt =====
-- main/agent/agent_loop.c: the conversation, the runs of tools and the replies of a whole turn.
use esp32_agent_mesh.Prelude.{
  Bool-cases, Option-cases, Bytes, str_eq, ℕ, ◌+◌, ◌≤◌, ◌≡◌, refl, sym, ap, ◌∙◌, ◌≢◌, inl, inr, not,
  ◌&&◌, Option, none, some, List, [], ◌∷◌, ◌++◌, append_assoc, append-nil, arith,
}
use esp32_agent_mesh.Bus.Messages.{Msg, chan_system}
use esp32_agent_mesh.Agent.World.{
  Response, ChatMessage, from_user, from_assistant, tool_results, AgentEffect, executes, AgentWorld,
  Turn, max_tool_iter, is_proactive,
}
use esp32_agent_mesh.Agent.Turn.{
  build_tool_results, send_working, after_tools, react, run_unless, start_turn, agent_turn,
}
use esp32_agent_mesh.Agent.Replies.{AreAnswered, no_rounds, round, react-keeps, results_ids}
use esp32_agent_mesh.Agent.Requests.{deterministic_request}

module _ (w : AgentWorld) (msg : Msg) where
  abbrev KeepsAnswered : List ChatMessage → ℕ → Turn → Type 0
  KeepsAnswered base left t =
      (n : ℕ) × (rounds : List ChatMessage) × (t.messages ≡ base ++ rounds)
      × AreAnswered n rounds
      × (n + left ≤ max_tool_iter)

  send_working-messages : (t : Turn) → (send_working w msg t).messages ≡ t.messages
  unfolding send_working
  send_working-messages t =
      let status =
        not (is_proactive msg)
        && not t.sent_working_status
        && not (str_eq msg.channel chan_system)
        && w.copied w.phrases.working in
      elim (Bool-cases status) [ inl e ↦ rw e refl | inr e ↦ rw e refl ]

  react-AreAnswered :
      (history : List ChatMessage) (requested : List AgentEffect)
      → (n : ℕ) × (rounds : List ChatMessage) × ((react w msg max_tool_iter
            (start_turn w msg history requested)).1.messages
          ≡ (history ++ (from_user msg.content ∷ [])) ++ rounds)
        × AreAnswered n rounds
        × (n ≤ max_tool_iter)
  react-AreAnswered history requested =
      let base = history ++ (from_user msg.content ∷ []) in
      let (left, (n, rounds, same, answered, few)) =
        react-keeps w msg (KeepsAnswered base)
          (λ left t (n, rounds, same, answered, few).
            (n, rounds, send_working-messages t ∙ same, answered, few))
          (λ left t resp (n, rounds, same, answered, few). (
            n + 1,
            rounds
                ++ (from_assistant resp.text resp.calls
                    ∷ tool_results (build_tool_results w msg resp.calls t.tool_fallback).0
                    ∷ []),
            unfold after_tools in
                ap
                  (λ ms.
                    ms
                    ++ (from_assistant resp.text resp.calls
                        ∷ tool_results (build_tool_results w msg resp.calls t.tool_fallback).0
                        ∷ []))
                  same
                ∙ append_assoc base rounds _,
            round n rounds resp.text resp.calls _ answered
                (results_ids w msg resp.calls t.tool_fallback),
            omega (arith, few),
          ))
          max_tool_iter (start_turn w msg history requested)
          (0, [], sym (append-nil base), no_rounds, omega arith) in
      (n, rounds, same, answered, omega (arith, few))

  -- After a turn, its messages are those of the history, the user's message, and at most ten rounds,
  -- in each of which every call of the model has a result under its id, in order.
  pub agent_turn-AreAnswered :
      (history : List ChatMessage)
      → (n : ℕ) × (rounds : List ChatMessage) × ((agent_turn w msg history).1.messages
          ≡ (history ++ (from_user msg.content ∷ [])) ++ rounds)
        × AreAnswered n rounds
        × (n ≤ max_tool_iter)
  unfolding agent_turn
  agent_turn-AreAnswered history = elim (Option-cases (deterministic_request w msg).0) [
    | inl e ↦ rw e (react-AreAnswered history (deterministic_request w msg).1)
    | inr (text, e) ↦ rw e (0, [], sym (append-nil _), no_rounds, omega arith)
  ]

  abbrev IsNoRun : AgentEffect → Type 0
  IsNoRun e = (name input : Bytes) → e ≢ executes name input

  -- What the contact starts with and the loop keeps holds at the end.
  pub run_unless-keeps :
      (P : Turn → Type 0)
      → ((t : Turn) → P t → P (send_working w msg t))
      → ((t : Turn) (resp : Response) → P t → P (after_tools w msg resp t))
      → (shortcut : Option Bytes) (t : Turn) → P t
      → P (run_unless w msg shortcut t).1
  run_unless-keeps P status tools (some text) t p = p
  run_unless-keeps P status tools none t p =
      (react-keeps w msg (λ left. P) (λ left. status) (λ left. tools) max_tool_iter t p).1
