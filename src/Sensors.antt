-- ===== src/Sensors.antt =====
-- main/drivers: devices on the I2C bus.
pub mod Sgp30
pub mod Startup
pub mod Air
pub mod Pacing
mod Tests
