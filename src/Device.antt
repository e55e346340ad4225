-- ===== src/Device.antt =====
-- device.cpp: the multiplexer's side towards the devices.
pub mod Packet
pub mod Window
pub mod Teardown
pub mod Ports
pub mod Input
pub mod Mux
pub mod Lifecycle
pub mod Remove
pub mod Sockets
