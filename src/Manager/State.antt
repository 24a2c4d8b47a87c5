-- ===== src/Manager/State.antt =====
-- `Domain::getState` and `awaitMonitorStartup` of src/manager/domain.cpp.
use bmboot.Base.{ℕ, zero, suc, if◌then◌else◌, leb}
use bmboot.Bus.{Bus}
use bmboot.Types.{
  DomainState, state_of_code, state_code, ◌is◌, monitor_ready, invalid_state,
  monitor_start_timed_out,
}
use bmboot.Types.{in_reset as reset_state, unavailable as unavailable_state}
use bmboot.Manager.{
  Cpu, World, Host, Outcome, done, failed, DomainGeneralState, in_reset, unavailable,
  monitor_started,
}

-- The state that the executor reports, if it is one.
abbrev pub reported_state : ℕ → DomainState
reported_state raw = if leb raw (state_code invalid_state) then state_of_code raw else invalid_state

abbrev pub state_given : DomainGeneralState → ℕ → DomainState
state_given in_reset raw = reset_state
state_given unavailable raw = unavailable_state
state_given monitor_started raw = reported_state raw

module _ {b : Bus} (h : Host b) (d : Cpu) where
  abbrev pub get_state : World b → DomainState
  get_state w = state_given (w.general d) w.ipc.to_manager.state

  -- The loop of `awaitMonitorStartup`, with the rounds that are left.
  unfoldable pub await_loop : ℕ → World b → Outcome × World b
  await_loop zero w = (failed monitor_start_timed_out, w)
  await_loop (suc left) w =
      let w' = h.elapse 10000 w in
      let rest = await_loop left w' in if get_state w' is monitor_ready then (done, w') else rest

  unfoldable pub await_monitor_startup : World b → Outcome × World b
  unfolding await_loop
  await_monitor_startup w = await_loop 50 w
