-- ===== src/Gpio.antt =====
-- main/tools/gpio_policy.c: which pins a tool may touch.
pub mod Strtol
pub mod Policy
pub mod Allowlist
pub mod Safety
mod Tests
