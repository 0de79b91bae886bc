-- ===== src/Bus/Tests.antt =====
-- The bus over lists of at most 16 messages.
use esp32_agent_mesh.Prelude.{codes, ok, timeout, ◌/◌, ◌≡◌, refl, none, some, List, [], ◌∷◌}
use esp32_agent_mesh.Bus.ListQueue.{list_send, list_receive, list_queue}
use esp32_agent_mesh.Bus.Messages.{
  Msg, uint32_max, Ticks, Bus, push_inbound, pop_inbound, pop_outbound,
}
use esp32_agent_mesh.Bus.Delivery.{
  BusCall, push_in, pop_in, pop_out, lanes_run, bus_step, bus_run, bus_run_refines,
}

abbrev hundred_hz : Ticks
hundred_hz = record { forever = uint32_max; of_ms = λ ms. ms / 10 }

abbrev hello : Msg
hello = record { channel = codes "cli"; chat_id = codes "1"; flags = 0; content = codes "hi" }

abbrev empty_bus : Bus (list_queue 16) hundred_hz
empty_bus = record { inbound = []; outbound = [] }

abbrev calls : List BusCall
calls = push_in hello ∷ pop_out 5 ∷ pop_in 5 ∷ []

calls_replies :
    bus_run (list_queue 16) hundred_hz calls empty_bus
    ≡ (ok, none) ∷ (timeout, none) ∷ (ok, some hello) ∷ []
unfolding bus_run bus_step push_inbound pop_outbound pop_inbound list_send list_receive
calls_replies = refl

bus_run_refines_example :
    bus_run (list_queue 16) hundred_hz calls empty_bus
    ≡ lanes_run calls (record { inbound = []; outbound = [] })
bus_run_refines_example =
    bus_run_refines (list_queue 16) hundred_hz calls empty_bus
      (record { deep_in = refl; deep_out = refl })
