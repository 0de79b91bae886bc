-- ===== src/Memory/Clearing.antt =====
-- main/memory/session_mgr.c: a conversation that was cleared has no history.
use esp32_agent_mesh.Prelude.{
  ◌==◌, Bool-cases, Option-cases, Bytes, codes, str_eq, str_eq_refl, copy_field, ok, ℕ, ◌<◌, ◌≡◌,
  refl, inl, inr, Bool, true, false, Option, none, List, [], ◌∷◌, arith,
}
use esp32_agent_mesh.Prelude.Int.{ℤ, pos, leb_ℤ}
use esp32_agent_mesh.Mesh.Json.{JsonApi}
use esp32_agent_mesh.Mesh.Rows.{Row}
use esp32_agent_mesh.Memory.Paths.{
  session_path, session_legacy_path, Files, path_size, named_file, remove_named, session_clear,
}
use esp32_agent_mesh.Memory.History.{history_file, history_text, session_get_history_json}

named_file-removed :
    (goes : Bytes → Bool) (p : Bytes) (files : Files)
    → goes p ≡ true
    → named_file p (remove_named goes p files).1 ≡ none
named_file-removed goes [] files g = refl
named_file-removed goes (b ∷ bs) files g = elim (Option-cases (files (b ∷ bs))) [
  | inl e ↦ rw e e
  | inr (content, e) ↦ rw (e, g, str_eq_refl (b ∷ bs))
]

named_file-still :
    (goes : Bytes → Bool) (p q : Bytes) (files : Files)
    → named_file q files ≡ none
    → named_file q (remove_named goes p files).1 ≡ none
named_file-still goes [] q files h = h
named_file-still goes (b ∷ bs) [] files h = refl
named_file-still goes (b ∷ bs) (c ∷ cs) files h = elim (Option-cases (files (b ∷ bs))) [
  | inl e ↦ rw e h
  | inr (content, e) ↦ elim (Bool-cases (str_eq (c ∷ cs) (b ∷ bs))) [
    | inl same ↦ elim (Bool-cases (goes (b ∷ bs))) [ inl g ↦ rw (e, g, same) | inr g ↦ rw (e, g) h ]
    | inr other ↦ elim (Bool-cases (goes (b ∷ bs))) [
      | inl g ↦ rw (e, g, other) h
      | inr g ↦ rw (e, g) h
    ]
  ]
]

module _ (api : JsonApi) (print_row : Row api.Json → Option Bytes)
    (print_rows : List (Row api.Json) → Option Bytes) (goes : Bytes → Bool) (dir : Bytes) where
  history_file-clear :
      (chat_id : Bytes) (files : Files)
      → goes (session_path dir chat_id path_size) ≡ true
      → goes (session_legacy_path dir chat_id path_size) ≡ true
      → history_file api print_row print_rows dir chat_id (session_clear goes dir chat_id files).1
        ≡ none
  unfolding history_file session_clear
  history_file-clear chat_id files g l =
      let p = session_path dir chat_id path_size in
      let q = session_legacy_path dir chat_id path_size in
      let first =
        named_file-still goes q p (remove_named goes p files).1
          (named_file-removed goes p files g) in
      rw first (named_file-removed goes q (remove_named goes p files).1 l)

  -- Where the file system lets a conversation's file and its file of the old kind go, after the
  -- conversation was cleared, whatever it had in either, its history is the empty array, for any
  -- number of messages and any buffer.
  pub session_get_history_json-clear :
      (chat_id : Bytes) (size : ℕ) (max_msgs : ℤ) (files : Files)
      → 0 < size
      → goes (session_path dir chat_id path_size) ≡ true
      → goes (session_legacy_path dir chat_id path_size) ≡ true
      → session_get_history_json api print_row print_rows dir chat_id size max_msgs
          (session_clear goes dir chat_id files).1
        ≡ (ok, copy_field size (codes "[]"))
  unfolding session_get_history_json
  session_get_history_json-clear chat_id size max_msgs files h g l =
      let room : (size == 0) ≡ false = ground (arith, h) in
      elim (Bool-cases (leb_ℤ max_msgs (pos 0))) [
        | inl e ↦ rw (room, e)
        | inr e ↦ rw (room, e, history_file-clear chat_id files g l) (unfold history_text in refl)
      ]
