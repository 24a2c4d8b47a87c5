-- ===== src/Lifecycle/Kill.antt =====
-- `Domain::terminatePayload` of src/manager/domain.cpp with the core's answer to its interrupt, in
-- src/platform/zynqmp/executor/monitor/vectors_el3.cpp.
use bmboot.Base.{◌≡◌}
use bmboot.Bus.{Bus}
use bmboot.Monitor.{Executor, in_main}
use bmboot.Manager.{Cpu, World, Host}
use bmboot.Manager.Boot.{write_message, message_buffer_base}
use bmboot.Lifecycle.Invariant.{Inv}
use bmboot.Lifecycle.Frames.{Withdrawn}
use bmboot.Lifecycle.Drives.{Drives}
use bmboot.Lifecycle.Rings.{trigger, trigger_digit, channel_of, Rings}

module _ {b : Bus} (h : Host b) (d : Cpu) where
  -- The world after the message is in the buffer.
  abbrev pub messaged : World b → World b
  messaged w = record w {
    device = write_message h 8 0 (message_buffer_base (channel_of d)) w.device;
  }

  abbrev pub rung : World b → World b
  rung w = record (messaged w) { device = b.write32 (messaged w).device trigger (trigger_digit d) }

module _ {b : Bus} where
  -- In the loop, with the command withdrawn.
  pub record Idle (e : Executor b) : Type 0 where
    pub inv : Inv e
    pub withdrawn : Withdrawn e
    pub up : e.control ≡ in_main
