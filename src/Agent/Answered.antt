-- ===== src/Agent/Answered.antt =====
-- main/agent/agent_loop.c: every message gets one reply.
use esp32_agent_mesh.Prelude.{All, Bytes, codes, is_empty, ◌≡◌, Bool, true, false, List, [], ◌∷◌}
use esp32_agent_mesh.Bus.Messages.{Msg}
use esp32_agent_mesh.Agent.Text.{text_is_proactive_no_message}
use esp32_agent_mesh.Agent.World.{AgentEffect, AgentWorld, Turn, is_proactive, reply_to}
use esp32_agent_mesh.Agent.Turn.{sorry_text}

module _ (w : AgentWorld) (msg : Msg) where
  -- Only the word that the agent is at work, before the reply.
  abbrev pub AreWaits : List (Msg × Bool) → Type 0
  AreWaits = All (λ m. m.0 ≡ reply_to msg w.phrases.working)

  -- What a turn hands to the queue at its end, on what it did before.
  pub data IsReply (before : List AgentEffect) (fallback : Bytes) : List (Msg × Bool) → Type 0 where
    replied :
        (text : Bytes)
        → is_empty text ≡ false
        → IsReply before fallback ((reply_to msg text, w.takes before (reply_to msg text)) ∷ [])
    declined :
        (text : Bytes)
        → is_proactive msg ≡ true
        → is_empty text ≡ false
        → text_is_proactive_no_message (codes "PROACTIVE_NO_MESSAGE") text ≡ true
        → IsReply before fallback []
    no_memory : w.copied (sorry_text w msg fallback) ≡ false → IsReply before fallback []
