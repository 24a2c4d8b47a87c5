-- ===== src/Tools/Bmctl.antt =====
-- src/tools/bmctl.cpp. A program's arguments begin with its own name.
pub mod Statuses
use Prim.Native.String.{String}
use text.Mathlib.Text.{◌==◌ as str_eq}
use bmboot.Base.{if◌then◌else◌, not, Option, none, some, List, [], ◌∷◌}
use bmboot.Bus.{Bus}
use bmboot.Types.{◌is◌, in_reset, monitor_ready}
use bmboot.Types.Names.{parse_domain_index}
use bmboot.Manager.{Cpu, World, Host, Outcome, done}
use bmboot.Manager.State.{get_state}
use bmboot.Manager.Domain.{domain}
use bmboot.Manager.Boot.{startup, terminate_payload}
use bmboot.Manager.Open.{open_domain}
use bmboot.Manager.Coredump.Dump.{dump_core}
use bmboot.Tools.{
  Exit, success, failure, Files, domain_of, return_on_error, throw_on_error,
  load_payload_from_file_or_throw, run_console_until_interrupted,
}

module _ {b : Bus} (h : Host b) (files : Files b) where
  -- The machine runs on between two calls.
  abbrev pub later : World b → World b
  later w = h.elapse 0 w

  pub boot : Cpu → World b → Exit × World b
  boot d w =
      if get_state h d w is in_reset
      then return_on_error h files (startup h d (later w)) (λ v. (success, v))
      else (success, w)

  abbrev pub dump : Cpu → World b → Outcome × World b
  dump d w =
      let r =
        dump_core h files.io files.structs files.map_at files.elsewhere d none files.core_file w in
      (r.outcome, r.world)

  -- Where the state is as it must be, the payload is loaded.
  pub start : Cpu → String → World b → (World b → Exit × World b) → Exit × World b
  start d path w next =
      if not (get_state h d w is monitor_ready)
      then (failure, w)
      else load_payload_from_file_or_throw h files (domain h files.elf (dump d) d) path (later w)
          next

  -- `terminate`
  abbrev pub terminate : Cpu → World b → Exit × World b
  terminate d w = return_on_error h files (terminate_payload h d w) (λ v. (success, v))

  -- What `run` does once the state is known: it starts the payload, and terminates it after the
  -- console.
  pub run_started : Cpu → String → World b → Exit × World b
  unfolding start
  run_started d path w =
      start d path w (λ v. terminate d (later (run_console_until_interrupted h files v)))

  -- `run`; a domain in reset is booted first.
  pub run : Cpu → String → World b → Exit × World b
  unfolding run_started
  run d path w =
      if get_state h d w is in_reset
      then return_on_error h files (startup h d (later w)) (λ v. run_started d path (later v))
      else run_started d path w

  -- `argc != 4`
  abbrev pub with_filename : List String → World b → (String → Exit × World b) → Exit × World b
  with_filename (path ∷ []) w next = next path
  with_filename rest w next = (failure, w)

  pub command : Cpu → String → List String → World b → Exit × World b
  unfolding boot start run
  command d name rest w =
      if str_eq name "boot"
      then boot d w
      else if str_eq name "core"
      then return_on_error h files (dump d w) (λ v. (success, v))
      else if str_eq name "debuginfo"
      then (success, w)
      else if str_eq name "run"
      then with_filename rest w (λ path. run d path w)
      else if str_eq name "start"
      then with_filename rest w (λ path. start d path w (λ v. (success, v)))
      else if str_eq name "status"
      then (success, w)
      else if str_eq name "terminate"
      then terminate d w
      else (failure, w)

  abbrev on_domain : Option Cpu → String → List String → World b → Exit × World b
  on_domain none name rest w = (failure, w)
  on_domain (some d) name rest w =
      throw_on_error h files (open_domain h d w) (λ v. command d name rest (later v))

  pub bmctl : List String → World b → Exit × World b
  unfolding command
  bmctl (program ∷ name ∷ domain ∷ rest) w =
      on_domain (domain_of (parse_domain_index domain)) name rest w
  bmctl args w = (failure, w)
