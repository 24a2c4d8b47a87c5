-- ===== src/Tests/Lifecycle.antt =====
-- A core that takes its steps while the manager sleeps, and a payload that it accepts.
use bmboot.Base.{
  ◌<◌, ℕ, zero, suc, ◌≡◌, refl, ap, sym, subst, arith, some, inl, inr, ◌⊎◌, List, [], ◌∷◌,
}
use bmboot.Crc.{crc32}
use bmboot.Types.{state_code, running_payload, monitor_ready}
use bmboot.Smc.{smc_notify_payload_started, handle_smc}
use bmboot.Monitor.{Executor, Control, in_main, in_dummy, in_payload, halted, set_to_manager}
use bmboot.Monitor.Validate.{IsPayload}
use bmboot.Monitor.Loop.{main_round, acknowledge}
use bmboot.Manager.{cpu2, World, Host, done, monitor_started}
use bmboot.Manager.Memory.{store_bytes}
use bmboot.Manager.Boot.{terminate_payload}
use bmboot.Manager.State.{get_state}
use bmboot.Zynqmp.{get_ipi_channel_for_cpu}
use bmboot.Manager.Start.{StartArguments, send, start_payload_at}
use bmboot.Lifecycle.{CoreStep, loops, calls, Reach, here, next}
use bmboot.Lifecycle.Round.{main_round_ind}
use bmboot.Lifecycle.Invariant.{Inv}
use bmboot.Lifecycle.Drives.{Drives}
use bmboot.Lifecycle.Terminate.{terminate_payload-rests}
use bmboot.Manager.Start.Succeeds.{Waits, Unrejected, rounds, round_end, start_payload_at-done}
use bmboot.Lifecycle.Load.{load_and_start_payload-checked}
use bmboot.Manager.Load.{load_and_start_payload}
use bmboot.Tests.Fixtures.{bus, world, host, executor, call}

-- Where the core is, as a number.
abbrev encode : Control → ℕ
encode in_main = 0
encode in_dummy = 1
encode halted = 2
encode (in_payload a) = suc (suc (suc a))

abbrev pub decode : ℕ → Control
decode zero = in_main
decode (suc zero) = in_dummy
decode (suc (suc zero)) = halted
decode (suc (suc (suc a))) = in_payload a

decode-encode : (c : Control) → decode (encode c) ≡ c
decode-encode in_main = refl
decode-encode in_dummy = refl
decode-encode halted = refl
decode-encode (in_payload a) = refl

abbrev core : World bus → Executor bus
core w = record (executor w.ipc) { memory = w.memory; control = decode (w.device.place) }

-- The world after the core took a step to `e`.
abbrev after : World bus → Executor bus → World bus
after w e = record w { ipc = e.block; device = record w.device { place = encode e.control } }

abbrev notified : Executor bus → Executor bus
notified e = set_to_manager e (record e.block.to_manager { state = state_code running_payload })

abbrev turn : Control → World bus → World bus
turn in_main w = after w (main_round (core w))
turn (in_payload a) w = after w (notified (core w))
turn _ w = w

abbrev elapse : ℕ → World bus → World bus
elapse zero w = w
elapse (suc n) w = turn (decode (w.device.place)) w

abbrev pub busy_host : Host bus
busy_host = record (host 1) { elapse = elapse }

same_core : (e : Executor bus) → record e { control = decode (encode e.control) } ≡ e
same_core e = ap (λ c. record e { control = c }) (decode-encode e.control)

core-round : (w : World bus) → core (after w (main_round (core w))) ≡ main_round (core w)
core-round w =
    main_round_ind (core w) (λ e. core (after w e) ≡ e) (same_core (core w))
      (λ p. same_core (acknowledge (core w))) (λ p. refl) (λ p ok. refl) (λ p. same_core _)

notifies :
    (e : Executor bus)
    → handle_smc e (call smc_notify_payload_started)
      ≡ some (notified e, call smc_notify_payload_started)
unfolding handle_smc
notifies e = refl

turn-Reach :
    (c : Control) (w : World bus)
    → decode (w.device.place) ≡ c
    → Reach CoreStep (core w) (core (turn c w))
turn-Reach in_main w at =
    subst (Reach CoreStep (core w)) (sym (core-round w)) (next here (loops (core w) at))
turn-Reach (in_payload a) w at =
    subst (Reach CoreStep (core w)) (sym (same_core (notified (core w))))
      (next here (calls (core w) (notified (core w)) a _ _ at (notifies (core w))))
turn-Reach in_dummy w at = here
turn-Reach halted w at = here

elapse-Reach : (n : ℕ) (w : World bus) → Reach CoreStep (core w) (core (elapse n w))
elapse-Reach zero w = here
elapse-Reach (suc n) w = turn-Reach (decode (w.device.place)) w refl

drives : Drives busy_host core
drives = record {
  block = λ w. refl;
  put = λ w k. refl;
  store = λ w m. refl;
  opens = λ w o. refl;
  elapse = elapse-Reach;
  device = λ w a v. here;
}

-- A header of fourteen bytes, with the magic number and the ABI version.
abbrev pub image : List ℕ
image = 0 ∷ 0 ∷ 0 ∷ 0 ∷ 0 ∷ 0 ∷ 0 ∷ 0 ∷ 0x42 ∷ 0x6d ∷ 0x62 ∷ 0x6f ∷ 2 ∷ 0 ∷ []

abbrev pub arguments : StartArguments
arguments = record {
  entry_address = 0x2000;
  payload_size = 14;
  payload_crc32 = 0x121bb04b;
  payload_argument = 0;
}

abbrev blank : World bus
blank = world monitor_started 1

abbrev waiting : World bus
waiting = record blank { memory = store_bytes (λ a. 0) 0x2000 image }

blank-Inv : Inv (core blank)
blank-Inv = record {
  shape = refl;
  command = inl refl;
  ack_in = omega arith;
  stdout = record { storage = refl; wrpos_in = omega arith; rdpos_in = omega arith };
}

-- The payload is accepted during the first sleep, and calls the monitor during the second.
succeeded : (load_and_start_payload busy_host cpu2 image 0x121bb04b 0 blank).0 ≡ done
unfolding load_and_start_payload bmboot.Manager.Load.load_to_physical_memory start_payload_at
    bmboot.Manager.Start.poll_loop main_round bmboot.Monitor.Loop.handle_start
    bmboot.Monitor.Validate.validate_payload crc32 bmboot.Crc.update
succeeded = refl

load_and_start_payload-checked_example :
    ((core (load_and_start_payload busy_host cpu2 image 0x121bb04b 0 blank).1).control
      ≡ in_payload 0x802100000)
    × (crc32 0 image ≡ 0x121bb04b)
    × IsPayload (store_bytes (λ a. 0) 0x802100000 image) 0x802100000 14 0x121bb04b
load_and_start_payload-checked_example =
    load_and_start_payload-checked busy_host cpu2 core drives image 0x121bb04b 0 blank blank-Inv
      refl succeeded

-- A ready domain with a command that is withdrawn before the core looks at it.
abbrev asked : World bus
asked = record waiting { ipc = send waiting.ipc arguments }

asked-Inv : Inv (core asked)
asked-Inv = record {
  shape = refl;
  command = inr refl;
  ack_in = omega arith;
  stdout = record { storage = refl; wrpos_in = omega arith; rdpos_in = omega arith };
}

terminated : (terminate_payload busy_host cpu2 asked).0 ≡ done
unfolding terminate_payload get_ipi_channel_for_cpu bmboot.Manager.State.await_monitor_startup
    main_round
terminated = refl

terminate_payload-rests_example :
    let v = (terminate_payload busy_host cpu2 asked).1 in
    (get_state busy_host cpu2 v ≡ monitor_ready)
    × ((core v).control ≡ in_main)
    × ((e : Executor bus)
        → Reach CoreStep (core v) e
        → (e.control ≡ in_main) ⊎ (e.control ≡ halted))
    × (let k = (main_round (core v)).block in k.to_manager.cmd_ack ≡ k.to_executor.cmd_seq)
terminate_payload-rests_example =
    terminate_payload-rests busy_host cpu2 core drives asked asked-Inv terminated

-- The payload at 0x2000: the first round ends with it accepted, the second with it running.
abbrev sent : World bus
sent = record waiting { ipc = send waiting.ipc arguments }

first_round : Waits busy_host cpu2 (rounds busy_host cpu2 0 sent)
unfolding rounds main_round bmboot.Monitor.Loop.handle_start
    bmboot.Monitor.Validate.validate_payload crc32 bmboot.Crc.update
first_round = record { unrejected = refl; not_running = λ e. cc e; not_crashed = λ e. cc e }

all_wait : (k : ℕ) → k < 1 → Waits busy_host cpu2 (rounds busy_host cpu2 k sent)
all_wait zero l = first_round
all_wait (suc k) l = absurd (omega arith)

second_runs :
    Unrejected busy_host cpu2 (rounds busy_host cpu2 1 sent)
    × (get_state busy_host cpu2 (round_end busy_host cpu2 (rounds busy_host cpu2 1 sent))
        ≡ running_payload)
unfolding rounds main_round bmboot.Monitor.Loop.handle_start
    bmboot.Monitor.Validate.validate_payload crc32 bmboot.Crc.update
second_runs = (refl, refl)

start_payload_at-done_example :
    start_payload_at busy_host cpu2 waiting arguments
    ≡ (done, round_end busy_host cpu2 (rounds busy_host cpu2 1 sent))
start_payload_at-done_example =
    start_payload_at-done busy_host cpu2 waiting arguments 1 refl refl (omega arith) all_wait
      second_runs.0 second_runs.1
