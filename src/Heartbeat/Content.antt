-- ===== src/Heartbeat/Content.antt =====
-- main/heartbeat/heartbeat.c: whether HEARTBEAT.md holds a task, and the message that is then sent.
-- The file is a text without zero bytes.
use esp32_agent_mesh.Prelude.{
  ◌==◌, if◌then◌else◌, length, Bytes, codes, copy_field, skip_spaces, EspErr, is_ok, ℕ, zero, suc,
  Bool, true, false, not, ◌&&◌, ◌||◌, Option, none, some, [], ◌∷◌,
}
use esp32_agent_mesh.Bus.Messages.{Msg, chan_system}

-- `char line[256]`: `fgets` takes up to 255 bytes, or to the end of the line.
abbrev pub line_room : ℕ
line_room = 255

unfoldable pub fgets : ℕ → Bytes → Bytes × Bytes
fgets zero s = ([], s)
fgets (suc room) [] = ([], [])
fgets (suc room) (c ∷ cs) =
    let (line, rest) = fgets room cs in if c == b'\n' then (c ∷ [], cs) else (c ∷ line, rest)

-- `- [x]`, with either bullet and either mark.
unfoldable pub is_completed : Bytes → Bool
is_completed (a ∷ b ∷ c ∷ mark ∷ d ∷ rest) =
    (a == b'-' || a == b'*')
    && b == b' '
    && c == b'['
    && (mark == b'x' || mark == b'X')
    && d == b']'
is_completed _ = false

-- Behind the leading white space.
unfoldable pub is_actionable_at : Bytes → Bool
unfolding is_completed
is_actionable_at [] = false
is_actionable_at (c ∷ cs) = if c == b'#' then false else not (is_completed (c ∷ cs))

unfoldable pub is_actionable : Bytes → Bool
unfolding is_actionable_at
is_actionable line = is_actionable_at (skip_spaces line)

-- The loop, on fuel: each round takes at least a byte.
unfoldable pub has_tasks_from : ℕ → Bytes → Bool
unfolding fgets is_actionable
has_tasks_from zero s = false
has_tasks_from (suc fuel) [] = false
has_tasks_from (suc fuel) (c ∷ cs) =
    let (line, rest) = fgets line_room (c ∷ cs) in
    let later = has_tasks_from fuel rest in if is_actionable line then true else later

-- `file` is the text, or none if it cannot be opened.
unfoldable pub heartbeat_has_tasks : Option Bytes → Bool
unfolding has_tasks_from
heartbeat_has_tasks none = false
heartbeat_has_tasks (some file) = has_tasks_from (suc (length file)) file

abbrev pub heartbeat_msg : Bytes → Msg
heartbeat_msg prompt = record {
  channel = copy_field 16 chan_system;
  chat_id = copy_field 96 (codes "heartbeat");
  flags = 0;
  content = prompt;
}

-- `copied` says whether the prompt could be duplicated.
unfoldable pub heartbeat_send :
    {B : Type 0} → (Msg → B → EspErr × B) → Bytes → Option Bytes → Bool → B → Bool × B
unfolding heartbeat_has_tasks
heartbeat_send push prompt file copied b =
    if not (heartbeat_has_tasks file)
    then (false, b)
    else if not copied
    then (false, b)
    else let (err, b') = push (heartbeat_msg prompt) b in (is_ok err, b')
