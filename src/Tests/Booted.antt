-- ===== src/Tests/Booted.antt =====
-- A core from the boot of its monitor to its payload.
use bmboot.Base.{◌≡◌, refl}
use bmboot.Crc.{crc32}
use bmboot.Monitor.{Executor, Control, in_main, in_dummy, in_payload, halted, set_to_manager}
use bmboot.Monitor.Validate.{IsPayload}
use bmboot.Monitor.Loop.{main_round, acknowledge}
use bmboot.Manager.Memory.{store_bytes}
use bmboot.Manager.Boot.{fresh_block}
use bmboot.Monitor.Setup.Laws.{started, start_main-started}
use bmboot.Zynqmp.{ch0, get_ipi_channel_for_cpu}
use bmboot.Manager.Start.{send}
use bmboot.Lifecycle.{loops, Step, Reach, here, next, runs, sends, stores, Booted}
use bmboot.Lifecycle.Invariant.{Inv, Booted-Inv}
use bmboot.Lifecycle.Entry.{Accepts, Booted-Entered}
use bmboot.Tests.Fixtures.{bus, distributor, executor}
use bmboot.Tests.Lifecycle.{busy_host, image, arguments}

-- The monitor comes up on the first core; the manager loads the image and sends the command; the core
-- does a round.
abbrev cold : Executor bus
cold = executor (fresh_block busy_host 100)

abbrev up : Executor bus
up = started bus distributor cold ch0

up-Booted : Booted busy_host up
unfolding get_ipi_channel_for_cpu
up-Booted = record {
  core = cold;
  cntfrq = 100;
  fresh = refl;
  started = start_main-started bus distributor cold ch0 refl;
}

abbrev commanded : Executor bus
commanded =
    let loaded = record up { memory = store_bytes (λ a. 0) 0x2000 image } in
    record loaded { block = send loaded.block arguments }

up-Reach : Reach Step up (main_round commanded)
unfolding bmboot.Monitor.Setup.enable_cpu_interrupts
up-Reach =
    next (next (next here (stores up _)) (sends _ arguments refl)) (runs (loops commanded refl))

entered : (main_round commanded).control ≡ in_payload 0x2000
unfolding main_round bmboot.Monitor.Loop.handle_start bmboot.Monitor.Validate.validate_payload crc32
    bmboot.Crc.update bmboot.Monitor.Setup.enable_cpu_interrupts
entered = refl

Booted-Inv_example : Inv (main_round commanded)
Booted-Inv_example = Booted-Inv busy_host up (main_round commanded) up-Booted up-Reach

Booted-Entered_example : (s : Executor bus) × Reach Step up s × Accepts s 0x2000
Booted-Entered_example =
    Booted-Entered busy_host up (main_round commanded) 0x2000 up-Booted up-Reach entered
