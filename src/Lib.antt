-- ===== src/Lib.antt =====
-- ESP32_AgentMesh: firmware for ESP32 nodes that run a language-model agent, sample sensors, drive
-- outputs and talk to each other over MQTT.
--
-- The parts modelled, each in a folder of its own; paths are those of the repository.
--   * Prelude: Booleans, lists, text as lists of byte codes, integers, words, ESP-IDF status codes.
--   * Cache (main/cache/cache_store.c): the in-memory key-value cache. `Cells` is the array of 32
--     cells and the searches in it, `Put` is `cache_put` with its eviction loop, `Get` the other
--     operations. Proofs: `Invariant` (byte count, distinct keys), `Eviction` (the loop), `Slot` and
--     `Victim` (the searches), `Storing`, `Reading`, `Sweeping`; `Laws` has what each operation
--     promises and `Runs` the histories of calls.
--   * Bus (main/bus/message_bus.c): the inbound and outbound queues between the channels and the
--     agent. `Rtos` is the interface to a FreeRTOS queue, `Messages` the bus, `Delivery` its
--     refinement to two lists of messages.
--   * Cron (main/cron/cron_service.c): the table of scheduled messages, which pushes onto the bus.
--     `Jobs` is a job and its next run, `Service` the table, `Due` the pass over the due jobs,
--     `Table` what the operations promise. `Adding` is `cron_add_job`, `Storage` the file, `Saved`
--     and `Restart` the proof that a saved table is loaded again.
--   * Node (main/node/node_profile.c, main/roles/role_config.c): which services a node runs, read
--     from its role and its list of capabilities. `Tokens` is the search in that list.
--   * Gpio (main/tools/gpio_policy.c): which pins the tools may use. `Strtol` is the C library's
--     function on base 10, `Policy` the checks, `Allowlist` and `Safety` their proofs.
--   * Mesh (main/mesh/mesh_protocol.c and the handlers of main/sensors/sensor_mqtt.c): commands from
--     node to node. `Json` is the interface to cJSON, `Command` the parser and the topics, `Decisions`
--     the ring of cached Guardian decisions, `Guardian` the policy check, `Control` the gate and the
--     handlers, `Outputs` the ring of cached results, `Rows` the texts that are built with cJSON.
--     `Publishing` is the queue of texts to publish, `Stateboard` the board of the last events,
--     `Announce` the messages that a node publishes, `Audit` the Guardian's notes, `Inbound` the
--     choice of a handler by topic. Proofs: `Flushing` (from the queue to the reader), `Board`,
--     `Results` and `Arrival` (results), `Auditing`, `Heard` and `Allowed` (decisions before runs, over
--     sequences of messages), `Accepted` (the parser), `Safety` and `Granted` (the gate),
--     `Policy`, `Topics`. The roles are those of Node.
--   * Mqtt (main/sensors/sensor_mqtt.c): the client's packets. `Length` is the length field, `Packets`
--     what is sent and polled, `Stream` the proofs that polls read what was published,
--     `Written` what a connection takes of it.
--   * Heartbeat (main/heartbeat/heartbeat.c): the periodic prompt. `Content` reads HEARTBEAT.md and
--     sends, through the bus, `Tasks` proves which files ask for nothing; `Worker` is the timer's
--     callback and the worker task as a step relation; `Timer` starts and stops.
--   * Sensors (main/drivers/sgp30.c): the air quality sensor. `Sgp30` is its start and stop, `Air` the
--     checksum and the readings; `Startup` and `Pacing` are their proofs.
--   * Tools (main/tools): `tool_mesh_command.c` is the tool by which the agent sends a command to another
--     node. `Sending` reads and checks the request and makes the command, `MeshCommand` asks the
--     Guardian of Mesh, publishes and waits, `Waiting` is the task that waits and puts the result on
--     the Bus. `Registry` is the table of the tools and the choice between this board and the mesh
--     (main/tools/tool_registry.c). Proofs: `Requests` (what is accepted), `Rerouted` and `Routing`
--     (the registry), `Granted` (the gate), `Asked` (the Guardian's answer), `Delivered` (what the
--     node reads), `Waits`.
--   * Automation (main/automation/automation_engine.c): workflows and rules that send commands through
--     Tools. `Steps` is a step, `Tables` the state, `Workflows` the creation and the task of a
--     workflow, `Rules` the creation of a rule and the file, `Reading` and `Checking` the rule task,
--     `Control` start, stop and removal. Proofs: `Slots` (the tables), `Adding`, `RuleAdding`,
--     `Running`, `Pacing`. Floats are an abstract type.
--   * Memory (main/memory/session_mgr.c): the file of a conversation and its last messages. `Paths`
--     names and removes the files, `History` appends and reads. Proofs: `Recent` (the ring), `Clearing`.
--   * Agent (main/agent/agent_loop.c): the turn of the agent for a message of the Bus. `World` is what it
--     calls, `Calls` the inputs of tools, `Requests` the requests that are carried out without the
--     model, `Turn` the loop and the reply, `Text` the cut of texts. Ten rounds of tools are the loop's
--     own bound. Proofs: `Replies`, `Requested`, `Keeping`, `Answered`, `Prefix`.
--
-- Conventions. C text is the list of its bytes before the terminating zero; a null pointer is `none`
-- where the code tests for it. File-scope variables are the fields of a record that each operation
-- takes and returns. Where a function holds a mutex from start to end it is one step. The
-- clock, an allocation's outcome and a kernel object's creation are arguments. 32-bit counters wrap
-- (`add32`). cJSON finds a key whatever the case of its letters, and a number that it is given as an
-- integer comes back within the range of `int`; what is said of a text that it reads asks no more.
-- Loops that are not structural run on fuel, a theorem of the loop says that the fuel given is
-- enough: 33 rounds for evictions among 32 cells, one more than the characters of a text, one more
-- than the jobs of a table. Logging is left out.
--
-- Not modelled: the JSON, TLS, I2C and audio libraries, the other sensors and the outputs' drivers, the
-- telemetry that the MQTT task sends, the network services and their buffers, the console, and, of
-- the agent, the words by which it and its guard know a request, and the texts of its prompts.
pub mod Prelude
pub mod Cache
pub mod Node
pub mod Gpio
pub mod Bus
pub mod Cron
pub mod Mesh
pub mod Mqtt
pub mod Heartbeat
pub mod Sensors
pub mod Tools
pub mod Automation
pub mod Memory
pub mod Agent
