-- ===== src/Mesh/Announce.antt =====
-- main/sensors/sensor_mqtt.c: the texts in which a node tells the others what it does, and their way
-- to the queue, the cache of results and the board.
-- The topics of main/espagent_config.h.
use esp32_agent_mesh.Prelude.{
  if◌then◌else◌, Bytes, codes, copy_field, or_word, decimal, EspErr, no_mem, is_ok, ℕ, Bool, Option,
  none, some, List, [], ◌∷◌, ◌++◌,
}
use esp32_agent_mesh.Prelude.Int.{pos}
use esp32_agent_mesh.Node.Profile.{NodeProfile}
use esp32_agent_mesh.Mesh.Json.{JsonApi}
use esp32_agent_mesh.Mesh.Rows.{text, number, tree, Row, add_unless_empty}
use esp32_agent_mesh.Mesh.Outputs.{OutputCache, output_cache_store_json}
use esp32_agent_mesh.Mesh.Stateboard.{Stateboard, Outlet, publish_text, stateboard_note_event}

pub record MeshTopics : Type 0 where
  pub telemetry : Bytes
  pub state : Bytes
  pub events : Bytes
  pub command : Bytes
  pub role_command : Bytes
  pub dispatch : Bytes
  pub timeline : Bytes
  pub alerts : Bytes
  pub policy_check : Bytes
  pub policy_decision : Bytes
  pub guardian_stateboard : Bytes

-- `prefix` is ESPAGENT_MESH_TOPIC_PREFIX.
unfoldable pub mesh_topics : Bytes → NodeProfile → MeshTopics
mesh_topics prefix me =
    let node = prefix ++ (codes "/nodes/" ++ me.id) in
    record {
      telemetry = node ++ codes "/telemetry";
      state = node ++ codes "/state";
      events = node ++ codes "/events";
      command = node ++ codes "/command";
      role_command = prefix ++ (codes "/roles/" ++ (me.role ++ codes "/command"));
      dispatch = prefix ++ codes "/agent/dispatch";
      timeline = prefix ++ codes "/agent/timeline";
      alerts = prefix ++ codes "/alerts";
      policy_check = prefix ++ codes "/security/policy_check";
      policy_decision = prefix ++ codes "/security/decision";
      guardian_stateboard = prefix ++ codes "/guardian/stateboard";
    }

-- `snprintf` of a prefix, a name and the time, as the ids of messages have them.
abbrev pub stamped_id : Bytes → Bytes → ℕ → Bytes
stamped_id start name ts_ms = copy_field 96 (start ++ (name ++ (b'-' ∷ decimal ts_ms)))

-- The arguments of `sensor_mqtt_publish_timeline_event`, with null pointers.
pub record TimelineEvent : Type 0 where
  pub phase : Option Bytes
  pub event_type : Option Bytes
  pub status : Option Bytes
  pub summary : Option Bytes
  pub command_id : Option Bytes
  pub target_role : Option Bytes
  pub target_node : Option Bytes
  pub action : Option Bytes

-- The arguments of `sensor_mqtt_publish_output_message`.
pub record OutputMessage : Type 0 where
  pub event : Option Bytes
  pub command_id : Option Bytes
  pub trace_id : Option Bytes
  pub action : Option Bytes
  pub recipient : Option Bytes
  pub result_err : EspErr
  pub summary : Option Bytes
  pub result_text : Option Bytes

abbrev pub status_word : EspErr → Bytes
status_word err = if is_ok err then codes "ok" else codes "error"

module _ {J : Type 0} (me : NodeProfile) where
  abbrev pub add_optional : Bytes → Option Bytes → Row J → Row J
  add_optional key value row = add_unless_empty key (or_word [] value) row

  unfoldable pub timeline_row : ℕ → TimelineEvent → Row J
  timeline_row ts_ms e =
      (codes "event_id", text (stamped_id (codes "evt-") me.id ts_ms))
      ∷ (codes "node_id", text me.id)
      ∷ (codes "role", text me.role)
      ∷ (codes "source_node", text me.id)
      ∷ (codes "source_role", text me.role)
      ∷ (codes "location", text me.location)
      ∷ (codes "type", text (or_word (codes "event") e.event_type))
      ∷ (codes "event", text (or_word (codes "event") e.event_type))
      ∷ (codes "phase", text (or_word [] e.phase))
      ∷ (codes "status", text (or_word [] e.status))
      ∷ (codes "summary", text (or_word [] e.summary))
      ∷ add_optional (codes "command_id") e.command_id (
          add_optional (codes "target_role") e.target_role (
            add_optional (codes "target_node") e.target_node
              (add_optional (codes "action") e.action ((codes "ts_ms", number (pos ts_ms)) ∷ []))))

  -- `err_name` is `esp_err_to_name`, `built` an object of texts, if there is memory, `null` a null.
  module _ (err_name : EspErr → Bytes) (built : List (Bytes × Bytes) → Option J) (null : J) where
    abbrev pub add_built : Bytes → Option J → Row J → Row J
    add_built key none row = row
    add_built key (some obj) row = (key, tree obj) ∷ row

    abbrev pub error_value : OutputMessage → Option J
    error_value m =
        if is_ok m.result_err
        then some null
        else built (
            (codes "code", err_name m.result_err)
            ∷ (codes "message", or_word [] m.result_text)
            ∷ [])

    abbrev pub named_or : Bytes → Bytes → Bytes
    named_or [] name = name
    named_or (b ∷ bs) name = b ∷ bs

    unfoldable pub output_row : ℕ → OutputMessage → Row J
    output_row ts_ms m =
        (codes "schema", text (codes "espagent.output.v1"))
        ∷ (
          codes "msg_id",
          text (stamped_id (codes "out-") (named_or (or_word [] m.command_id) me.id) ts_ms),
        )
        ∷ (codes "node_id", text me.id)
        ∷ (codes "role", text me.role)
        ∷ (codes "sender", text me.role)
        ∷ (codes "sender_node", text me.id)
        ∷ (codes "recipient", text (or_word (codes "coordinator_agent") m.recipient))
        ∷ (codes "location", text me.location)
        ∷ (codes "type", text (codes "output"))
        ∷ (codes "event", text (or_word (codes "output") m.event))
        ∷ add_optional (codes "command_id") m.command_id (
            add_optional (codes "trace_id") m.trace_id (
              add_optional (codes "action") m.action (
                (codes "status", text (status_word m.result_err))
                ∷ (codes "esp_err", text (err_name m.result_err))
                ∷ (codes "summary", text (or_word [] m.summary))
                ∷ add_built (codes "result") (built ((codes "text", or_word [] m.result_text) ∷ []))
                    (add_built (codes "error") (error_value m)
                      ((codes "ts_ms", number (pos ts_ms)) ∷ [])))))

-- `printed` is the text that cJSON makes of the row, and `board_ts_ms` the time at which the board is
-- written.
module _ {J : Type 0} (o : Outlet J) (topics : MeshTopics) where
  unfoldable pub tell_timeline :
      ℕ
      → TimelineEvent
      → Option Bytes
      → Stateboard × Option o.api.Queue
      → EspErr × Stateboard × Option o.api.Queue
  unfolding stateboard_note_event
  tell_timeline board_ts_ms e none (b, queue) = (no_mem, b, queue)
  tell_timeline board_ts_ms e (some json) (b, queue) =
      let (err, queue₁) = publish_text o topics.timeline json queue in
      let (b', queue') =
        stateboard_note_event o topics.guardian_stateboard
          (record {
            ts_ms = board_ts_ms;
            event_type = e.event_type;
            status = e.status;
            summary = e.summary;
            command_id = e.command_id;
          })
          (b, queue₁) in
      (err, b', queue')

  unfoldable pub sensor_mqtt_publish_timeline_event :
      ℕ
      → ℕ
      → TimelineEvent
      → Stateboard × Option o.api.Queue
      → EspErr × Stateboard × Option o.api.Queue
  unfolding tell_timeline timeline_row
  sensor_mqtt_publish_timeline_event ts_ms board_ts_ms e s =
      tell_timeline board_ts_ms e (o.print_row (timeline_row o.me ts_ms e)) s

  unfoldable pub tell_output :
      ℕ
      → OutputMessage
      → Option Bytes
      → Stateboard × Option o.api.Queue
      → EspErr × Stateboard × Option o.api.Queue
  unfolding stateboard_note_event
  tell_output board_ts_ms m none (b, queue) = (no_mem, b, queue)
  tell_output board_ts_ms m (some json) (b, queue) =
      let (err, queue₁) = publish_text o topics.events json queue in
      let (timeline_err, queue₂) = publish_text o topics.timeline json queue₁ in
      let (b', queue') =
        stateboard_note_event o topics.guardian_stateboard
          (record {
            ts_ms = board_ts_ms;
            event_type = some (or_word (codes "output") m.event);
            status = some (status_word m.result_err);
            summary = some (or_word [] m.summary);
            command_id = m.command_id;
          })
          (b, queue₂) in
      (if is_ok err then timeline_err else err, b', queue')

module _ (japi : JsonApi) (o : Outlet japi.Json) (topics : MeshTopics) (err_name : EspErr → Bytes)
    (built : List (Bytes × Bytes) → Option japi.Json) (null : japi.Json)
    (object_of : Row japi.Json → japi.Json) where
  -- `object_of` is the object that the row describes, `made` and `taken` are as for the cache.
  unfoldable pub sensor_mqtt_publish_output_message :
      Bool
      → Bool
      → ℕ
      → ℕ
      → ℕ
      → OutputMessage
      → OutputCache
      → Stateboard × Option o.api.Queue
      → EspErr × OutputCache × Stateboard × Option o.api.Queue
  unfolding output_row output_cache_store_json tell_output
  sensor_mqtt_publish_output_message made taken ts_ms cache_ts_ms board_ts_ms m outputs s =
      let row = output_row o.me err_name built null ts_ms m in
      let (err, b, queue) = tell_output o topics board_ts_ms m (o.print_row row) s in
      (err, output_cache_store_json japi made taken cache_ts_ms (object_of row) outputs, b, queue)
