-- ===== src/Tests/Protocol.antt =====
-- A manager and a core that runs the monitor's loop.
use bmboot.Base.{ℕ, zero, suc, ◌≡◌, refl, ap, inl, arith, List, [], ◌∷◌}
use bmboot.Crc.{crc32}
use bmboot.Crc.Reference.{crc32-nil}
use bmboot.Ipc.{image_malformed}
use bmboot.Types.{payload_checksum_mismatch}
use bmboot.Monitor.{Executor}
use bmboot.Monitor.Validate.{validate_payload_lem}
use bmboot.Monitor.Loop.{main_round}
use bmboot.Monitor.Loop.Laws.{verdict}
use bmboot.Manager.{cpu2, cpu3, World, Host, failed, monitor_started}
use bmboot.Manager.Start.{StartArguments, send, start_payload_at}
use bmboot.Manager.Load.{load_and_start_payload, start_arguments}
use bmboot.Manager.Memory.{payload_region}
use bmboot.Manager.Load.Elsewhere.{load_and_start_payload-elsewhere}
use bmboot.Manager.Protocol.{rejection, start_payload_at-rejected}
use bmboot.Manager.Protocol.Mismatch.{loaded, load_and_start_payload-mismatch}
use bmboot.Tests.Fixtures.{bus, world, host, executor}

abbrev core : World bus → Executor bus
core w = record (executor w.ipc) { memory = w.memory }

-- The core does a round during each sleep.
abbrev core_elapse : ℕ → World bus → World bus
core_elapse zero w = w
core_elapse (suc n) w = record w { ipc = (main_round (core w)).block }

abbrev core_host : Host bus
core_host = record (host 1) { elapse = core_elapse }

abbrev waiting : World bus
waiting = world monitor_started 1

abbrev arguments : StartArguments
arguments = record {
  entry_address = 0x2000;
  payload_size = 0;
  payload_crc32 = 0;
  payload_argument = 0;
}

abbrev asked : World bus
asked = record waiting { ipc = send waiting.ipc arguments }

malformed : verdict (core asked) ≡ image_malformed
malformed = (validate_payload_lem (λ a. 0) 0x2000 0 0).2.1 (crc32-nil 0, λ q. omega arith)

start_payload_at-rejected_example : start_payload_at core_host cpu2 waiting arguments ≡ (
  failed (rejection (verdict (core asked))),
  record waiting { ipc = (main_round (core asked)).block },
)
start_payload_at-rejected_example =
    start_payload_at-rejected core_host cpu2 waiting arguments (core asked) refl refl
      (λ q. omega arith) refl (refl, refl) (λ q. cc malformed)

abbrev letter : List ℕ
letter = 97 ∷ []

crc32_of_letter : crc32 0 letter ≡ 0xE8B7BE43
unfolding crc32 bmboot.Crc.update
crc32_of_letter = refl

abbrev sent_letter : World bus
sent_letter =
    let w = loaded core_host cpu2 waiting letter in
    record w { ipc = send w.ipc (start_arguments core_host cpu2 letter 1 0) }

load_and_start_payload-mismatch_example :
    (load_and_start_payload core_host cpu2 letter 1 0 waiting).0 ≡ failed payload_checksum_mismatch
load_and_start_payload-mismatch_example =
    load_and_start_payload-mismatch core_host cpu2 waiting letter 1 0 3 (core sent_letter) refl
      (omega arith) refl refl (refl, refl, refl, refl, refl) (λ q. omega (arith, crc32_of_letter))

core_elapse-memory : (n : ℕ) (v : World bus) → (core_elapse n v).memory ≡ v.memory
core_elapse-memory zero v = refl
core_elapse-memory (suc n) v = refl

-- The byte after the payload region of the second core.
load_and_start_payload-elsewhere_example :
    (load_and_start_payload core_host cpu2 letter 0 0 waiting).1.memory 0x804100000
    ≡ waiting.memory 0x804100000
load_and_start_payload-elsewhere_example =
    load_and_start_payload-elsewhere core_host cpu2 0x804100000
      (λ n v. ap (λ (m : ℕ → ℕ). m 0x804100000) (core_elapse-memory n v)) cpu3 payload_region
      (omega arith) (omega arith) (inl λ e. cc) waiting letter 0 0
