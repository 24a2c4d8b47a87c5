-- ===== src/Tests/Files.antt =====
-- Opening a domain, and the callbacks of the ELF library.
use bmboot.Base.{ℕ, ◌+◌, ◌^◌, ◌≤◌, ◌≡◌, ◌⊎◌, refl, arith, false, some, List, [], ◌∷◌}
use bmboot.Types.{running_payload}
use bmboot.Manager.{cpu2, World, done, in_reset, monitor_started, set_general}
use bmboot.Manager.State.{get_state}
use bmboot.Manager.Boot.{install_monitor, is_core_in_reset}
use bmboot.Manager.Open.{open_domain, open_domain-install_monitor}
use bmboot.Manager.Elf.{alloc, alloc_bounds}
use bmboot.Tests.Fixtures.{bus, device, world, host}

-- The core runs a payload; this manager has not looked at it yet.
abbrev found : World bus
found = record (world in_reset 3) {
  memory = (install_monitor (host 3) cpu2 (world in_reset 0)).memory;
  device = record device { words = λ a. 0 };
}

core_runs : is_core_in_reset (host 3) cpu2 found ≡ false
unfolding is_core_in_reset
core_runs = refl

open_domain-install_monitor_example :
    (open_domain (host 3) cpu2 found ≡ (done, set_general found cpu2 monitor_started))
    × (get_state (host 3) cpu2 (open_domain (host 3) cpu2 found).1 ≡ running_payload)
open_domain-install_monitor_example =
    open_domain-install_monitor (host 3) cpu2 (world in_reset 0) found 3 refl refl refl core_runs
      (λ i p. refl)

placed : alloc cpu2 0x802101000 0x1000 ≡ some 0x1000
unfolding alloc
placed = refl

alloc_bounds_example :
    (◌≡◌ {A = ℕ} (0x802100000 + 0x1000) 0x802101000)
    × ((0x1000 + 0x1000 ≤ 0x02000000) ⊎ (2 ^ 64 ≤ 0x802101000 + 0x1000))
alloc_bounds_example =
    alloc_bounds cpu2 0x802101000 0x1000 0x1000 (omega arith) (omega arith) placed

abbrev file : List ℕ
file = 1 ∷ 2 ∷ 3 ∷ []
