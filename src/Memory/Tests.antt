-- ===== src/Memory/Tests.antt =====
-- The history of a conversation of three lines, one of which is no message, on a toy JSON library.
use esp32_agent_mesh.Prelude.{
  if◌then◌else◌, length, drop, Bytes, codes, str_eq, ok, ◌-◌, ◌≡◌, refl, true, Option, none, some,
  List, [], ◌∷◌, map, arith,
}
use esp32_agent_mesh.Prelude.Int.{pos}
use esp32_agent_mesh.Mesh.Toy.{Toy, str, obj, end, field, find_doc, toy}
use esp32_agent_mesh.Memory.Paths.{session_path, Files, session_clear}
use esp32_agent_mesh.Memory.History.{
  no_messages, kept_messages, push_lines, session_get_history_json,
}
use esp32_agent_mesh.Memory.Recent.{messages_in, kept_messages-last}
use esp32_agent_mesh.Memory.Clearing.{session_get_history_json-clear}

abbrev message : Bytes → Toy
message content =
    obj (field (codes "role") (str (codes "user")) (field (codes "content") (str content) end))

abbrev docs : List (Bytes × Toy)
docs = (codes "a", message (codes "one")) ∷ (codes "b", message (codes "two")) ∷ []

abbrev text_lines : List Bytes
text_lines = codes "a" ∷ codes "?" ∷ [] ∷ codes "b" ∷ codes "a" ∷ []

last_two :
    kept_messages 2 (push_lines (toy docs) 2 text_lines no_messages)
    ≡ some (message (codes "two")) ∷ some (message (codes "one")) ∷ []
unfolding kept_messages push_lines find_doc str_eq
last_two = refl

kept_messages-last_example :
    kept_messages 2 (push_lines (toy docs) 2 text_lines no_messages)
    ≡ map some
        (drop (length (messages_in (toy docs) text_lines) - 2) (messages_in (toy docs) text_lines))
kept_messages-last_example = kept_messages-last (toy docs) 2 text_lines (omega arith) (omega arith)

abbrev dir : Bytes
dir = codes "/s"

empty_hash : session_path dir [] 128 ≡ codes "/s/session_14650fb0739d0383.jsonl"
unfolding session_path
empty_hash = refl

abbrev one_file : Files
one_file path = if str_eq path (session_path dir (codes "ou_1") 128) then some (codes "a") else none

abbrev no_print {ℓ} : {A : Type ℓ} → A → Option Bytes
no_print a = none

session_get_history_json-clear_example :
    session_get_history_json
      (toy docs)
      no_print
      no_print
      dir
      (codes "ou_1")
      64
      (pos 5)
      (session_clear (λ p. true) dir (codes "ou_1") one_file).1
    ≡ (ok, codes "[]")
session_get_history_json-clear_example =
    session_get_history_json-clear (toy docs) no_print no_print (λ p. true) dir (codes "ou_1") 64
      (pos 5) one_file (omega arith) refl refl
