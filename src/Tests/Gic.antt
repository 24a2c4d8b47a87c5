-- ===== src/Tests/Gic.antt =====
-- The interrupt controller.
use bmboot.Base.{◌≡◌, true, false, arith}
use bmboot.Gic.{enable_interrupt, teardown_el1_interrupts}
use bmboot.Gic.Enable.{enable_interrupt_lem}
use bmboot.Gic.Teardown.{teardown_el1_interrupts_lem}
use bmboot.Tests.Fixtures.{bus, distributor, device, controller}

enable_interrupt_lem_example :
    ((enable_interrupt bus device 30).enables 30 ≡ true)
    × ((enable_interrupt bus device 30).pends 30 ≡ false)
    × ((enable_interrupt bus device 30).actives 30 ≡ false)
enable_interrupt_lem_example =
    enable_interrupt_lem bus distributor device 30 30 (omega arith) (omega arith) (omega arith)

teardown_el1_interrupts_lem_example :
    ((teardown_el1_interrupts bus controller).routed 40 ≡ false)
    × ((teardown_el1_interrupts bus controller).device.enables 40 ≡ false)
teardown_el1_interrupts_lem_example =
    teardown_el1_interrupts_lem bus distributor controller 40 (omega arith)
