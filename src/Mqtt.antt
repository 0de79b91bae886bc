-- ===== src/Mqtt.antt =====
-- The MQTT client of main/sensors/sensor_mqtt.c: packets out and in.
pub mod Length
pub mod Packets
pub mod Stream
pub mod Written
mod Tests
