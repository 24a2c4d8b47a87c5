-- ===== src/Zynqmp.antt =====
-- src/platform/zynqmp/zynqmp.hpp, and `getInterruptIdForIpi` of
-- src/platform/zynqmp/executor/monitor/interrupt_controller.cpp: the inter-processor interrupts.
use bmboot.Base.{ℕ, zero, suc, Option, none, some}

pub data IpiChannel : Type 0 where
  ch0 ch1 ch2 ch7 ch8 ch9 ch10 : IpiChannel

unfoldable pub get_ipi_base_address : IpiChannel → ℕ
get_ipi_base_address ch0 = 0xFF300000
get_ipi_base_address ch1 = 0xFF310000
get_ipi_base_address ch2 = 0xFF320000
get_ipi_base_address ch7 = 0xFF340000
get_ipi_base_address ch8 = 0xFF350000
get_ipi_base_address ch9 = 0xFF360000
get_ipi_base_address ch10 = 0xFF370000

unfoldable pub get_ipi_peer_mask : IpiChannel → ℕ
get_ipi_peer_mask ch0 = 0x00000001
get_ipi_peer_mask ch1 = 0x00000100
get_ipi_peer_mask ch2 = 0x00000200
get_ipi_peer_mask ch7 = 0x01000000
get_ipi_peer_mask ch8 = 0x02000000
get_ipi_peer_mask ch9 = 0x04000000
get_ipi_peer_mask ch10 = 0x08000000

unfoldable pub get_interrupt_id_for_ipi : IpiChannel → ℕ
get_interrupt_id_for_ipi ch0 = 67
get_interrupt_id_for_ipi ch1 = 65
get_interrupt_id_for_ipi ch2 = 66
get_interrupt_id_for_ipi ch7 = 61
get_interrupt_id_for_ipi ch8 = 62
get_interrupt_id_for_ipi ch9 = 63
get_interrupt_id_for_ipi ch10 = 64

-- `none` is the call of `abort`.
unfoldable pub get_ipi_channel_for_cpu : ℕ → Option IpiChannel
get_ipi_channel_for_cpu (suc zero) = some ch0
get_ipi_channel_for_cpu (suc (suc zero)) = some ch7
get_ipi_channel_for_cpu (suc (suc (suc zero))) = some ch8
get_ipi_channel_for_cpu _ = none

abbrev pub ipi_src_bmboot_manager : IpiChannel
ipi_src_bmboot_manager = ch0
