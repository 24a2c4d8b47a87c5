-- ===== src/Tests/Interrupts.antt =====
-- A payload on core 1 routes the interrupt of the core's own IPI to itself.
use bmboot.Base.{◌≡◌, arith, true, pos}
use bmboot.Ipc.{zeroed}
use bmboot.Gic.Configure.{in_group1}
use bmboot.Smc.{configure_irq, payload_priority}
use bmboot.Smc.Configure.{configure_irq_lem}
use bmboot.Tests.Fixtures.{bus, distributor, executor}

configure_irq_lem_example :
    let e' = configure_irq (executor zeroed) (pos 67) (payload_priority (pos 0x80)) in
    (in_group1 bus distributor e'.irq.device 67 ≡ true)
    × (e'.irq.routed 67 ≡ true)
    × (e'.block ≡ zeroed)
configure_irq_lem_example =
    configure_irq_lem bus distributor (executor zeroed) 67 0x80 67 (omega arith) (omega arith)
