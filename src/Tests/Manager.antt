-- ===== src/Tests/Manager.antt =====
-- The manager's operations.
use bmboot.Base.{ℕ, ◌≡◌, ◌≢◌, ◌<◌, ◌+◌, ◌==◌, ◌&&◌, ◌||◌, not, refl, bit_and}
use bmboot.Base.Bits.{test_bit}
use bmboot.Manager.{cpu1, cpu2, World, Outcome, done, in_reset, monitor_started}
use bmboot.Manager.Start.{StartArguments, start_payload_at}
use bmboot.Manager.Boot.{
  boot_core, ensure_ready_to_load_payload, rst_fpd_apu, rvbaraddr, reset_mask,
}
use bmboot.Manager.Boot.Laws.{boot_core_lem}
use bmboot.Tests.Fixtures.{bus, device, world, host}

abbrev arguments : StartArguments
arguments = record {
  entry_address = 0x802100000;
  payload_size = 9;
  payload_crc32 = 0xCBF43926;
  payload_argument = 0;
}

abbrev waiting : World bus
waiting = world monitor_started 1

-- The domain is found running after the first sleep.
started : (start_payload_at (host 3) cpu2 waiting arguments).0 ≡ done
unfolding start_payload_at bmboot.Manager.Start.poll_loop
started = refl

abbrev cold : World bus
cold = world in_reset 0

became_ready : (ensure_ready_to_load_payload (host 1) cpu2 cold).0 ≡ done
unfolding ensure_ready_to_load_payload bmboot.Manager.Boot.startup
    bmboot.Manager.Boot.install_and_boot boot_core bmboot.Manager.State.await_loop
    bmboot.Manager.State.await_monitor_startup
became_ready = refl

abbrev booted : World bus
booted = record cold {
  device =
      bus.write32 (bus.write32 (bus.write32 device (rvbaraddr cpu2) 0x10000) (rvbaraddr cpu2 + 4) 8)
        rst_fpd_apu 0x2C0B;
}

booted_lem : boot_core (host 1) cpu2 0x800010000 cold ≡ (done, booted)
unfolding boot_core
booted_lem = refl

boot_core_lem_example :
    (v : ℕ) × (booted ≡ record cold {
      device =
          bus.write32
            (bus.write32 (bus.write32 device (rvbaraddr cpu2) 0x10000) (rvbaraddr cpu2 + 4) 8)
            rst_fpd_apu
            v;
    })
    × (bit_and (device.words rst_fpd_apu) (reset_mask cpu2) ≢ 0)
    × ((k : ℕ)
        → k < 32
        → test_bit v k ≡ (test_bit (device.words rst_fpd_apu) k && not (k == 2 || k == 12)))
boot_core_lem_example = boot_core_lem (host 1) cpu2 0x800010000 cold booted booted_lem
