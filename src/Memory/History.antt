-- ===== src/Memory/History.antt =====
-- main/memory/session_mgr.c: appending to a conversation, and its last messages.
-- A file opened for appending, with a line written unless it could not be printed.
use esp32_agent_mesh.Prelude.{
  ltb, ◌==◌, if◌then◌else◌, length, set, replicate, Bytes, codes, copy_field, or_word, EspErr, ok,
  fail, no_mem, invalid_arg, is_ok, ℕ, zero, suc, ◌+◌, ◌%◌, min, Bool, not, ◌&&◌, Option, none,
  some, List, [], ◌∷◌, ◌++◌,
}
use esp32_agent_mesh.Prelude.Int.{ℤ, pos, pos_part, leb_ℤ}
use esp32_agent_mesh.Heartbeat.Content.{fgets}
use esp32_agent_mesh.Mesh.Json.{JsonApi, json_string}
use esp32_agent_mesh.Mesh.Rows.{Value, text, number, tree, Row}
use esp32_agent_mesh.Memory.Paths.{
  session_path, session_trace_path, session_legacy_path, Files, write_file, path_size, named_file,
}

abbrev pub appended_line : Bytes → Option Bytes → Bytes
appended_line old none = old
appended_line old (some line) = old ++ (line ++ (10 ∷ []))

abbrev pub content_of : Option Bytes → Bytes
content_of none = []
content_of (some content) = content

-- `opened` says whether the file can be opened.
unfoldable pub append_at : Bool → Bytes → Option Bytes → Files → EspErr × Files
append_at opened [] line files = (fail, files)
append_at opened (b ∷ bs) line files =
    if opened
    then (ok, write_file (b ∷ bs) (some (appended_line (content_of (files (b ∷ bs))) line)) files)
    else (fail, files)

-- `messages`, `count` and `write_idx` of `session_get_history_json`.
pub record Ring (J : Type 0) : Type 0 where
  pub messages : List (Option J)
  pub count : ℕ
  pub write_idx : ℕ

-- ESPAGENT_SESSION_MAX_MSGS
abbrev pub session_max_msgs : ℕ
session_max_msgs = 20

abbrev pub no_messages : {J : Type 0} → Ring J
no_messages = record { messages = replicate session_max_msgs none; count = 0; write_idx = 0 }

unfoldable pub push_message : {J : Type 0} → ℕ → J → Ring J → Ring J
push_message max_msgs obj r = record {
  messages = set r.messages r.write_idx (some obj);
  count = if ltb r.count max_msgs then r.count + 1 else r.count;
  write_idx = (r.write_idx + 1) % max_msgs;
}

abbrev pub cell_at : {J : Type 0} → List (Option J) → ℕ → Option J
cell_at [] i = none
cell_at (c ∷ cs) zero = c
cell_at (c ∷ cs) (suc i) = cell_at cs i

-- The cells in the order of the last loop: `left` rounds from the i-th on.
unfoldable pub collect_cells : {J : Type 0} → ℕ → List (Option J) → ℕ → ℕ → ℕ → List (Option J)
collect_cells max_msgs messages start i zero = []
collect_cells max_msgs messages start i (suc left) =
    cell_at messages ((start + i) % max_msgs) ∷ collect_cells max_msgs messages start (i + 1) left

unfoldable pub kept_messages : {J : Type 0} → ℕ → Ring J → List (Option J)
unfolding collect_cells
kept_messages max_msgs r =
    collect_cells max_msgs r.messages (if ltb r.count max_msgs then 0 else r.write_idx) 0 r.count

-- `char line[2048]`
abbrev pub line_room : ℕ
line_room = 2047

-- The newline at the end goes.
unfoldable pub strip_newline : Bytes → Bytes
strip_newline [] = []
strip_newline (c ∷ []) = if c == b'\n' then [] else c ∷ []
strip_newline (c ∷ d ∷ cs) = c ∷ strip_newline (d ∷ cs)

-- The lines that `fgets` gives, on fuel: each takes at least a byte.
unfoldable pub read_lines : ℕ → Bytes → List Bytes
unfolding fgets strip_newline
read_lines zero s = []
read_lines (suc fuel) [] = []
read_lines (suc fuel) (c ∷ cs) =
    let (line, rest) = fgets line_room (c ∷ cs) in strip_newline line ∷ read_lines fuel rest

abbrev pub written : ℕ → Option Bytes → Bytes
written size none = copy_field size (codes "[]")
written size (some json) = copy_field size json

abbrev pub or_legacy : Option Bytes → Option Bytes → Option Bytes
or_legacy none legacy = legacy
or_legacy (some content) legacy = some content

module _ (api : JsonApi) where
  open api use {Json, parse}

  abbrev pub parsed_line : Bytes → Option Json
  parsed_line [] = none
  parsed_line (b ∷ bs) = parse (b ∷ bs)

  abbrev pub push_parsed : ℕ → Option Json → Ring Json → Ring Json
  push_parsed max_msgs none r = r
  push_parsed max_msgs (some obj) r = push_message max_msgs obj r

  -- The loop over the lines of the file.
  unfoldable pub push_lines : ℕ → List Bytes → Ring Json → Ring Json
  unfolding push_message
  push_lines max_msgs [] r = r
  push_lines max_msgs (line ∷ lines) r =
      push_lines max_msgs lines (push_parsed max_msgs (parsed_line line) r)

  abbrev pub entry_of : Option Bytes → Option Bytes → List (Row Json) → List (Row Json)
  entry_of (some role) (some content) rest =
      ((codes "role", text role) ∷ (codes "content", text content) ∷ []) ∷ rest
  entry_of _ _ rest = rest

  -- Only the messages with a role and a content.
  unfoldable pub entry_rows : List (Option Json) → List (Row Json)
  entry_rows [] = []
  entry_rows (none ∷ cells) = entry_rows cells
  entry_rows (some src ∷ cells) =
      entry_of (json_string api src (codes "role")) (json_string api src (codes "content"))
        (entry_rows cells)

  -- `print_row` and `print_rows` make texts with cJSON, `time` is `time(NULL)`.
  module _ (print_row : Row Json → Option Bytes) (print_rows : List (Row Json) → Option Bytes)
      (dir : Bytes) where
    unfoldable pub session_append :
        Bool → ℕ → Bytes → Option Bytes → Option Bytes → Files → EspErr × Files
    unfolding append_at session_path
    session_append opened time chat_id (some role) (some content) files =
        append_at opened (session_path dir chat_id path_size)
          (print_row (
            (codes "role", text role)
            ∷ (codes "content", text content)
            ∷ (codes "ts", number (pos time))
            ∷ []))
          files
    session_append opened time chat_id role content files = (invalid_arg, files)

    -- The raw text as a tree where it parses.
    unfoldable pub raw_value : Bytes → Option Json → Bytes × Value Json
    raw_value raw_json none = (codes "raw_text", text raw_json)
    raw_value raw_json (some raw) = (codes "raw", tree raw)

    unfoldable pub add_raw : Bytes → Row Json → Row Json
    unfolding raw_value
    add_raw [] row = row
    add_raw (b ∷ bs) row = raw_value (b ∷ bs) (parse (b ∷ bs)) ∷ row

    -- `built` says whether there was memory for the object.
    unfoldable pub session_append_trace :
        Bool → Bool → ℕ → Bytes → Option Bytes → Option Bytes → Bytes → Files → EspErr × Files
    unfolding append_at session_trace_path add_raw
    session_append_trace opened built time chat_id event_type summary raw_json files =
        let row =
          (codes "type", text (codes "trace"))
          ∷ (codes "event", text (or_word (codes "event") event_type))
          ∷ (codes "summary", text (or_word [] summary))
          ∷ add_raw raw_json ((codes "ts", number (pos time)) ∷ []) in
        let line = if built then print_row row else none in
        let (err, files') =
          append_at opened (session_trace_path dir chat_id path_size) line files in
        (if is_ok err && not built then no_mem else err, files')

    -- The file that is read, if there is one.
    unfoldable pub history_file : Bytes → Files → Option Bytes
    unfolding session_path session_legacy_path
    history_file chat_id files =
        or_legacy (named_file (session_path dir chat_id path_size) files)
          (named_file (session_legacy_path dir chat_id path_size) files)

    unfoldable pub history_text : ℕ → ℕ → Option Bytes → Bytes
    unfolding read_lines push_lines kept_messages entry_rows
    history_text size max_msgs none = copy_field size (codes "[]")
    history_text size max_msgs (some content) =
        let r = push_lines max_msgs (read_lines (suc (length content)) content) no_messages in
        written size (print_rows (entry_rows (kept_messages max_msgs r)))

    unfoldable pub session_get_history_json : Bytes → ℕ → ℤ → Files → EspErr × Bytes
    unfolding history_text history_file
    session_get_history_json chat_id size max_msgs files =
        if size == 0
        then (invalid_arg, [])
        else if leb_ℤ max_msgs (pos 0)
        then (ok, copy_field size (codes "[]"))
        else (
          ok,
          history_text size (min (pos_part max_msgs) session_max_msgs) (history_file chat_id files),
        )
