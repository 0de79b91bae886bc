-- ===== src/Agent/Tests.antt =====
-- A turn with a model that calls one tool and then answers, and the theorems there.
use esp32_agent_mesh.Prelude.{
  Bytes, codes, str_eq, has_prefix, ok, ℕ, ◌≤◌, ◌≡◌, refl, true, false, Option, none, some, List,
  [], ◌∷◌,
}
use esp32_agent_mesh.Bus.Messages.{Msg}
use esp32_agent_mesh.Agent.Text.{utf8_safe_prefix_len}
use esp32_agent_mesh.Agent.Prefix.{IsWholeUpTo, utf8_safe_prefix_len-most}
use esp32_agent_mesh.Agent.Calls.{ToolCall}
use esp32_agent_mesh.Agent.World.{
  Response, ChatMessage, from_user, notes_contact, executes, saves, traces, tells_final, pushes,
  AgentWorld, reply_to,
}
use esp32_agent_mesh.Agent.Turn.{agent_turn}
use esp32_agent_mesh.Agent.Replies.{handed, AreAnswered}
use esp32_agent_mesh.Agent.Keeping.{agent_turn-AreAnswered}

abbrev hello : Msg
hello = record { channel = codes "cli"; chat_id = codes "1"; flags = 0; content = codes "hi" }

abbrev look_up : ToolCall
look_up = record { id = codes "t1"; name = codes "web_search"; input = some (codes "q") }

-- It calls the tool on a conversation of one message and answers on any other.
abbrev answers : List ChatMessage → Option Response
answers (m ∷ []) = some (record { text = []; calls = look_up ∷ []; tool_use = true })
answers _ = some (record { text = codes "done"; calls = []; tool_use = false })

abbrev world : AgentWorld
world = record {
  chat = answers;
  execute = λ name input. codes "found";
  guard = λ call msg. none;
  patch = λ call msg. none;
  is_unexecuted_claim = λ text msg. false;
  words = record {
    has_local_marker = λ text. false;
    is_light_request = λ text. str_eq text (codes "blue");
    has_sequence_marker = λ text. false;
    color_sequence = λ text. [];
    delay_ms = λ text. 1000;
    is_temperature_request = λ text. false;
    is_weather_request = λ text. false;
    light_color = λ text. some text;
  };
  print_workflow = λ steps. none;
  print_request = λ request. some (codes "m");
  takes = λ before m. true;
  copied = λ text. true;
  phrases = record {
    working = codes "w";
    not_dispatched = codes "n";
    failed = codes "f";
    found_online = codes "o";
    light_created = λ msg. codes "c";
    light_failed = codes "l";
    mesh_sent = codes "s";
    mesh_failed = codes "m";
  };
}

two_messages :
    handed (agent_turn world hello []).0
    ≡ (reply_to hello (codes "w"), true) ∷ (reply_to hello (codes "done"), true) ∷ []
unfolding agent_turn str_eq
two_messages = refl

abbrev full_world : AgentWorld
full_world = record world { takes = λ before m. false }

both_dropped :
    handed (agent_turn full_world hello []).0
    ≡ (reply_to hello (codes "w"), false)
      ∷ (reply_to hello (codes "w"), false)
      ∷ (reply_to hello (codes "done"), false)
      ∷ []
unfolding agent_turn str_eq
both_dropped = refl

abbrev blue : Msg
blue = record { channel = codes "cli"; chat_id = codes "1"; flags = 0; content = codes "blue" }

command_sent :
    (agent_turn world blue []).0
    ≡ notes_contact (codes "cli") (codes "1")
      ∷ executes (codes "mesh_send_command") (codes "m")
      ∷ saves (codes "user") (codes "blue")
      ∷ saves (codes "assistant") (codes "mfound")
      ∷ tells_final (codes "mfound") ok
      ∷ traces (codes "final_reply") (codes "mfound")
      ∷ pushes (reply_to blue (codes "mfound"))
      ∷ []
unfolding agent_turn str_eq has_prefix
command_sent = refl

agent_turn-AreAnswered_example :
    (n : ℕ) × (rounds : List ChatMessage) × ((agent_turn world hello []).1.messages
      ≡ from_user (codes "hi") ∷ rounds)
    × AreAnswered n rounds
    × (n ≤ 10)
agent_turn-AreAnswered_example = agent_turn-AreAnswered world hello []

-- A character of two bytes that is cut.
abbrev cut_text : Bytes
cut_text = b'a' ∷ 195 ∷ 169 ∷ []

cut_before : utf8_safe_prefix_len cut_text 2 ≡ 1
unfolding utf8_safe_prefix_len
cut_before = refl

utf8_safe_prefix_len-most_example :
    IsWholeUpTo (b'a' ∷ 195 ∷ []) (utf8_safe_prefix_len cut_text 2)
    × (utf8_safe_prefix_len cut_text 2 ≤ 2)
    × ((k : ℕ) → IsWholeUpTo (b'a' ∷ 195 ∷ []) k → k ≤ utf8_safe_prefix_len cut_text 2)
utf8_safe_prefix_len-most_example = utf8_safe_prefix_len-most cut_text 2
