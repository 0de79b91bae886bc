-- ===== src/Tools/Delivered.antt =====
-- main/tools/tool_mesh_command.c and main/mesh/mesh_protocol.c: the target node reads from a command's
-- text what the tool meant to send.
use esp32_agent_mesh.Prelude.{
  Bytes, codes, same_name, same_name_refl, copy_field, is_empty, ok, done, ℕ, ◌≡◌, refl, sym, ap,
  subst, ◌∙◌, ◌⊎◌, inl, inr, true, false, Option, none, some, [], ◌∷◌, arith,
}
use esp32_agent_mesh.Prelude.Int.{pos}
use esp32_agent_mesh.Node.Profile.{NodeProfile}
use esp32_agent_mesh.Mesh.Json.{JsonApi, json_string}
use esp32_agent_mesh.Mesh.Rows.{
  Value, text, number, truth, tree, Row, find_value, add_unless_empty, find_add_other, small-IsInt,
  IsRead, IsRead-parse_object, json_string-text, json_string-none, json_int-number, json_bool-truth,
  item-tree,
}
use esp32_agent_mesh.Mesh.Command.{
  MeshCommand, mesh_id_max, mesh_node_max, mesh_role_max, mesh_trace_max, mesh_args_json_max,
  safety_medium, no_command, or_empty, is_for, check_target, printed_args, item_args, found_args,
  copy_args_json, read_fields, read_command, read_root, parse_command,
}
use esp32_agent_mesh.Tools.Sending.{Outgoing, read_input, command_row}
use esp32_agent_mesh.Tools.Requests.{IsSendable, read_input-IsSendable}
use esp32_agent_mesh.Tools.Asked.{FitsRole-action, FitsRole-role, FitsRole-is_empty}

-- An optional text is absent where it is empty.
abbrev Optional : {J : Type 0} → Row J → Bytes → Bytes → Type 0
Optional row key s = ((s ≡ []) × (find_value row key ≡ none)) ⊎ (find_value row key ≡ some (text s))

add-Optional :
    {J : Type 0} (key s : Bytes) (row : Row J)
    → find_value row key ≡ none
    → Optional (add_unless_empty key s row) key s
add-Optional key [] row h = inl (refl, h)
add-Optional key (b ∷ bs) row h = inr (rw (same_name_refl key))

module _ (api : JsonApi) where
  Optional-read :
      (row : Row api.Json) (printed : Bytes) (r : IsRead api row printed) (key s : Bytes)
      → Optional row key s
      → or_empty (json_string api r.root key) ≡ s
  Optional-read row printed r key s (inl (e, n)) =
      rw (json_string-none api row printed r key n) (sym e)
  Optional-read row printed r key s (inr t) = rw (json_string-text api row printed r key s t)

  required-read :
      (row : Row api.Json) (printed : Bytes) (r : IsRead api row printed) (key s : Bytes)
      → find_value row key ≡ some (text s)
      → or_empty (json_string api r.root key) ≡ s
  required-read row printed r key s t = rw (json_string-text api row printed r key s t)

  -- The part of a command's text behind the optional keys.
  abbrev later : Outgoing api.Json → Row api.Json
  later o =
      (codes "action", text o.action)
      ∷ (codes "ttl_ms", number o.ttl_ms)
      ∷ (codes "safety_level", number o.safety_level)
      ∷ (codes "require_ack", truth o.require_ack)
      ∷ (codes "args", tree o.args)
      ∷ []

  later_value :
      (o : Outgoing api.Json) (key : Bytes)
      → same_name (codes "command_id") key ≡ false
      → same_name (codes "trace_id") key ≡ false
      → same_name (codes "target_node") key ≡ false
      → same_name (codes "target_role") key ≡ false
      → find_value (command_row api o) key ≡ find_value (later o) key
  unfolding command_row
  later_value o key a b c d = rw (
    a,
    b,
    find_add_other (codes "target_node") o.target_node key _ c,
    find_add_other (codes "target_role") o.target_role key _ d,
  )

  record Values (o : Outgoing api.Json) : Type 0 where
    id : find_value (command_row api o) (codes "command_id") ≡ some (text o.command_id)
    trace : find_value (command_row api o) (codes "trace_id") ≡ some (text o.trace_id)
    node : Optional (command_row api o) (codes "target_node") o.target_node
    role : Optional (command_row api o) (codes "target_role") o.target_role
    action : find_value (command_row api o) (codes "action") ≡ some (text o.action)
    ttl : find_value (command_row api o) (codes "ttl_ms") ≡ some (number o.ttl_ms)
    safety : find_value (command_row api o) (codes "safety_level") ≡ some (number o.safety_level)
    ack : find_value (command_row api o) (codes "require_ack") ≡ some (truth o.require_ack)
    args : find_value (command_row api o) (codes "args") ≡ some (tree o.args)
    no_text : find_value (command_row api o) (codes "args_json") ≡ none

  values : (o : Outgoing api.Json) → Values o
  unfolding command_row same_name
  values o = record {
    id = refl;
    trace = refl;
    node =
        add-Optional (codes "target_node") o.target_node
          (add_unless_empty (codes "target_role") o.target_role (later o))
          (find_add_other (codes "target_role") o.target_role (codes "target_node") (later o) refl);
    role =
        subst
          (λ (v : Option (Value api.Json)).
            ((o.target_role ≡ []) × (v ≡ none)) ⊎ (v ≡ some (text o.target_role)))
          (sym (
            find_add_other (codes "target_node") o.target_node (codes "target_role")
              (add_unless_empty (codes "target_role") o.target_role (later o)) refl))
          (add-Optional (codes "target_role") o.target_role (later o) refl);
    action = later_value o (codes "action") refl refl refl refl;
    ttl = later_value o (codes "ttl_ms") refl refl refl refl;
    safety = later_value o (codes "safety_level") refl refl refl refl;
    ack = later_value o (codes "require_ack") refl refl refl refl;
    args = later_value o (codes "args") refl refl refl refl;
    no_text = later_value o (codes "args_json") refl refl refl refl;
  }

  -- What the target node is to find: the command as it was meant, with its arguments as printed.
  abbrev pub delivered : Outgoing api.Json → Bytes → MeshCommand
  delivered o args_text = record {
    command_id = o.command_id;
    trace_id = o.trace_id;
    target_node = o.target_node;
    target_role = o.target_role;
    action = o.action;
    args_json = copy_field mesh_args_json_max args_text;
    ttl_ms = o.ttl_ms;
    safety_level = o.safety_level;
    require_ack = o.require_ack;
  }

  module _ (o : Outgoing api.Json) (prefix made_id printed : Bytes)
      (r : IsRead api (command_row api o) printed) (s : IsSendable prefix made_id o) where
    v : Values o
    v = values o

    args-read :
        (args_text : Bytes)
        → api.print o.args ≡ some args_text
        → copy_args_json api r.root ≡ (ok, copy_field mesh_args_json_max args_text)
    unfolding copy_args_json
    args-read args_text p =
        let row = command_row api o in
        rw (
          copy_args_json,
          json_string-none api row printed r (codes "args_json") v.no_text,
          item-tree api row printed r (codes "args") o.args v.args,
          found_args,
          item_args,
          p,
          printed_args,
        )

    fields-read :
        (args_json : Bytes)
        → record (read_fields api r.root o.action) { args_json = args_json }
          ≡ record (delivered o []) { args_json = args_json }
    unfolding read_fields
    fields-read args_json =
        let row = command_row api o in
        let id =
          ap (copy_field mesh_id_max)
            (required-read row printed r (codes "command_id") o.command_id v.id)
          ∙ s.command_id_fits in
        let trace =
          ap (copy_field mesh_trace_max)
            (required-read row printed r (codes "trace_id") o.trace_id v.trace)
          ∙ s.trace_id_fits in
        let node =
          ap (copy_field mesh_node_max)
            (Optional-read row printed r (codes "target_node") o.target_node v.node)
          ∙ s.node_fits in
        let role =
          ap (copy_field mesh_role_max)
            (Optional-read row printed r (codes "target_role") o.target_role v.role)
          ∙ FitsRole-role o.action o.target_role s.fits_role in
        let action = FitsRole-action o.action o.target_role s.fits_role in
        let ttl =
          json_int-number api row printed r (codes "ttl_ms") o.ttl_ms (pos 30000) v.ttl
            (small-IsInt o.ttl_ms (omega (arith, s.ttl_in.0)) s.ttl_in.1) in
        let safety =
          json_int-number api row printed r (codes "safety_level") o.safety_level safety_medium
            v.safety (small-IsInt o.safety_level s.safety_in.0 (omega (arith, s.safety_in.1))) in
        let ack =
          json_bool-truth api row printed r (codes "require_ack") o.require_ack true v.ack in
        λ i. record {
          command_id = id i;
          trace_id = trace i;
          target_node = node i;
          target_role = role i;
          action = action i;
          args_json = args_json;
          ttl_ms = ttl i;
          safety_level = safety i;
          require_ack = ack i;
        }

    read_command-delivered :
        (me : NodeProfile) (action args_text : Bytes)
        → action ≡ o.action
        → is_empty action ≡ false
        → api.print o.args ≡ some args_text
        → is_for o.target_node me.id ≡ true
        → is_for o.target_role me.role ≡ true
        → read_command api me r.root action ≡ (ok, delivered o args_text)
    unfolding read_command
    read_command-delivered me [] args_text same acts p n k = absurd (cc acts)
    read_command-delivered me (c ∷ cs) args_text same acts p n k =
        let args = args-read args_text p in
        let cut = copy_field mesh_args_json_max args_text in
        let found : read_command api me r.root (c ∷ cs) ≡ (
          check_target me ok (record (read_fields api r.root o.action) { args_json = cut }),
          record (read_fields api r.root o.action) { args_json = cut },
        ) =
          λ i. (
            check_target me (args i).0
                (record (read_fields api r.root (same i)) { args_json = (args i).1 }),
            record (read_fields api r.root (same i)) { args_json = (args i).1 },
          ) in
        let accepted : check_target me ok (delivered o args_text) ≡ ok =
          unfold check_target in rw (n, k) in
        found
        ∙ ap (λ cmd. (check_target me ok cmd, cmd)) (fields-read cut)
        ∙ ap (λ e. (e, delivered o args_text)) accepted

  -- A node that the target names fit reads from the text of a command that the tool's input asked for,
  -- where the text is read as it was made and is not empty, the command that was meant: the same ids,
  -- target, action, time to live, safety level and wish for an answer, and the arguments as they are
  -- printed, cut to their field; and it accepts it.
  pub parse_command-sent :
      (prefix made_id args_text : Bytes) (b : ℕ) (bs : Bytes) (empty : api.Json)
      (root : Option api.Json) (me : NodeProfile) (o : Outgoing api.Json)
      → read_input api prefix empty made_id root ≡ done o
      → IsRead api (command_row api o) (b ∷ bs)
      → api.print o.args ≡ some args_text
      → is_for o.target_node me.id ≡ true
      → is_for o.target_role me.role ≡ true
      → parse_command api me (b ∷ bs) no_command ≡ (ok, delivered o args_text)
  unfolding parse_command
  parse_command-sent prefix made_id args_text b bs empty root me o h r p n k =
      let s = read_input-IsSendable api prefix empty made_id root o h in
      let action =
        required-read (command_row api o) (b ∷ bs) r (codes "action") o.action (values o).action in
      let acts = FitsRole-is_empty o.action o.target_role s.fits_role in
      rw (IsRead-parse_object api (command_row api o) (b ∷ bs) r, read_root)
        (read_command-delivered o prefix made_id (b ∷ bs) r s me _ args_text action (rw action acts)
          p n k)
