-- ===== src/Memory/Paths.antt =====
-- main/memory/session_mgr.c: the files of a conversation.
use Prim.Native.Nat.{bit_xor}
use esp32_agent_mesh.Prelude.{
  ltb, leb, ◌==◌, if◌then◌else◌, length, Bytes, codes, str_eq, is_empty, hex_digits, EspErr, ok,
  not_found, ℕ, ◌*◌, ◌%◌, ◌^◌, Bool, true, false, not, ◌&&◌, ◌||◌, Option, none, some, [], ◌∷◌,
  ◌++◌,
}

-- FNV-1a on 64 bits. A null pointer is hashed as an empty text.
unfoldable pub hash_from : ℕ → Bytes → ℕ
hash_from hash [] = hash
hash_from hash (c ∷ cs) = hash_from (bit_xor hash c * 1099511628211 % 2 ^ 64) cs

unfoldable pub session_hash_chat_id : Bytes → ℕ
unfolding hash_from
session_hash_chat_id chat_id = hash_from 1469598103934665603 chat_id

-- What `snprintf` leaves where the text fits, and an empty text where it does not.
abbrev pub fitting : ℕ → Bytes → Bytes
fitting size path = if ltb (length path) size then path else []

-- `dir` is ESPAGENT_SPIFFS_SESSION_DIR.
unfoldable pub session_path : Bytes → Bytes → ℕ → Bytes
unfolding session_hash_chat_id hex_digits
session_path dir chat_id size =
    fitting size (
      dir
      ++ (codes "/session_" ++ (hex_digits 16 (session_hash_chat_id chat_id) ++ codes ".jsonl")))

unfoldable pub session_trace_path : Bytes → Bytes → ℕ → Bytes
unfolding session_hash_chat_id hex_digits
session_trace_path dir chat_id size =
    fitting size
      (dir ++ (codes "/trace_" ++ (hex_digits 16 (session_hash_chat_id chat_id) ++ codes ".jsonl")))

abbrev pub is_safe_byte : ℕ → Bool
is_safe_byte c =
    (leb b'0' c && leb c b'9')
    || (leb b'A' c && leb c b'Z')
    || (leb b'a' c && leb c b'z')
    || c == b'_'
    || c == b'-'
    || c == b'.'

unfoldable pub all_safe : Bytes → Bool
all_safe [] = true
all_safe (c ∷ cs) = is_safe_byte c && all_safe cs

unfoldable pub session_legacy_chat_id_is_safe : Bytes → Bool
unfolding all_safe
session_legacy_chat_id_is_safe chat_id = not (is_empty chat_id) && all_safe chat_id

unfoldable pub session_legacy_path : Bytes → Bytes → ℕ → Bytes
unfolding session_legacy_chat_id_is_safe
session_legacy_path dir chat_id size =
    if not (session_legacy_chat_id_is_safe chat_id)
    then []
    else fitting size (dir ++ (codes "/session_" ++ (chat_id ++ codes ".jsonl")))

-- The files by their paths.
abbrev pub Files : Type 0
Files = Bytes → Option Bytes

abbrev pub write_file : Bytes → Option Bytes → Files → Files
write_file path content files = λ p. if str_eq p path then content else files p

abbrev pub path_size : ℕ
path_size = 128

-- Whether a file went: `remove` fails on one that is not there, and on one that the file system does
-- not let go, which `goes` says of a path.
abbrev pub removed_file : Bool → Bytes → Files → Option Bytes → Bool × Files
removed_file gone path files none = (false, files)
removed_file false path files (some content) = (false, files)
removed_file true path files (some content) = (true, write_file path none files)

abbrev pub remove_file : (Bytes → Bool) → Bytes → Files → Bool × Files
remove_file goes path files = removed_file (goes path) path files (files path)

-- The file of a path that could be built.
abbrev pub named_file : Bytes → Files → Option Bytes
named_file [] files = none
named_file (b ∷ bs) files = files (b ∷ bs)

abbrev pub remove_named : (Bytes → Bool) → Bytes → Files → Bool × Files
remove_named goes [] files = (false, files)
remove_named goes (b ∷ bs) files = remove_file goes (b ∷ bs) files

unfoldable pub session_clear : (Bytes → Bool) → Bytes → Bytes → Files → EspErr × Files
unfolding session_path session_legacy_path
session_clear goes dir chat_id files =
    let (first, files₁) = remove_named goes (session_path dir chat_id path_size) files in
    let (second, files₂) = remove_named goes (session_legacy_path dir chat_id path_size) files₁ in
    (if first || second then ok else not_found, files₂)
