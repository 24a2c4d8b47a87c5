-- ===== src/Tools/Console.antt =====
-- src/tools/console.cpp.
use Prim.Native.String.{String}
use bmboot.Base.{if◌then◌else◌, Option, none, some, List, [], ◌∷◌}
use bmboot.Bus.{Bus}
use bmboot.Types.{◌is◌, in_reset, monitor_ready}
use bmboot.Types.Names.{parse_domain_index}
use bmboot.Manager.{Cpu, World, Host}
use bmboot.Manager.State.{get_state}
use bmboot.Manager.Start.{start_dummy_payload}
use bmboot.Manager.Boot.{startup}
use bmboot.Manager.Open.{open_domain}
use bmboot.Tools.{
  Exit, failure, success, Files, domain_of, return_on_error, throw_on_error,
  run_console_until_interrupted,
}

module _ {b : Bus} (h : Host b) (files : Files b) where
  -- From the second look at the state on.
  pub attach : Cpu → World b → Exit × World b
  attach d w =
      let v =
        if get_state h d w is monitor_ready then start_dummy_payload h d (h.elapse 0 w) else w in
      (success, run_console_until_interrupted h files v)

  pub console_domain : Cpu → World b → Exit × World b
  unfolding attach
  console_domain d w =
      if get_state h d w is in_reset
      then return_on_error h files (startup h d (h.elapse 0 w)) (λ v. attach d (h.elapse 0 v))
      else attach d (h.elapse 0 w)

  abbrev on_domain : Option Cpu → World b → Exit × World b
  on_domain none w = (failure, w)
  on_domain (some d) w =
      throw_on_error h files (open_domain h d w) (λ v. console_domain d (h.elapse 0 v))

  pub console : List String → World b → Exit × World b
  unfolding console_domain
  console (program ∷ domain ∷ []) w = on_domain (domain_of (parse_domain_index domain)) w
  console args w = (failure, w)
