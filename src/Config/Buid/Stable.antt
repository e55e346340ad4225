-- ===== src/Config/Buid/Stable.antt =====
-- conf.cpp: the system's id is generated once.
use Prim.Native.String.{String}
use usbmuxd_plugable_usb_msv.World.Host.{Host}
