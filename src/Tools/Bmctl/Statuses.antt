-- ===== src/Tools/Bmctl/Statuses.antt =====
-- What a status of zero of the `bmctl` tool of src/tools/bmctl.cpp says of the domain.
use Prim.Native.String.{String}
use bmboot.Base.{
  ◌≡◌, inl, inr, refl, ap, subst, ◌≢◌, ◌∙◌, sym, false, if◌then◌else◌, some, List, [], ◌∷◌,
  Bool-cases, if_ind,
}
use bmboot.Bus.{Bus}
use bmboot.Types.{◌is◌, is_iff, in_reset, monitor_ready, running_payload}
use bmboot.Types.Names.{parse_domain_index}
use bmboot.Manager.{Cpu, World, Host, done}
use bmboot.Manager.State.{get_state}
use bmboot.Manager.Domain.{domain}
use bmboot.Manager.Domain.Promises.{domain-Contract}
use bmboot.Manager.Boot.{startup, terminate_payload}
use bmboot.Manager.Boot.Laws.{terminate_payload-Ready}
use bmboot.Manager.Open.{open_domain}
use bmboot.Tools.{Exit, success, Files, domain_of, throw_on_error}
use bmboot.Tools.Load.{
  Means, failure-Means, success-Means, return_on_error-Means, throw_on_error-Means, load-Means,
}
use bmboot.Tools.Bmctl.{
  later, dump, boot, start, run_started, run, terminate, command, on_domain, bmctl,
}

module _ {b : Bus} (h : Host b) (files : Files b) where
  module _ (d : Cpu) where
    start-Means :
        (P : World b → Type 0) (path : String) (w : World b) (next : World b → Exit × World b)
        → ((v : World b) → get_state h d v ≡ running_payload → Means h files P (next v))
        → Means h files P (start h files d path w next)
    unfolding start
    start-Means P path w next all =
        if_ind (Means h files P) _ (λ _. failure-Means h files P w)
          (λ _.
            load-Means h files (domain h files.elf (dump h files d) d)
              (domain-Contract h files.elf (dump h files d) d) P path (later h files w) next all)

    -- The monitor is ready.
    abbrev pub IsReady : World b → Type 0
    IsReady w = get_state h d w ≡ monitor_ready

    terminate-Means : (w : World b) → Means h files IsReady (terminate h files d w)
    unfolding Means
    terminate-Means w =
        return_on_error-Means h files IsReady (terminate_payload h d w) _
          (λ v fine same e. ap (get_state h d) same ∙ terminate_payload-Ready h d w fine)

    run_started-Means :
        (path : String) (w : World b) → Means h files IsReady (run_started h files d path w)
    unfolding run_started
    run_started-Means path w = start-Means IsReady path w _ (λ v seen. terminate-Means _)

    run-Means : (path : String) (w : World b) → Means h files IsReady (run h files d path w)
    unfolding run
    run-Means path w =
        if_ind (Means h files IsReady) _
          (λ _.
            return_on_error-Means h files IsReady (startup h d (later h files w)) _
              (λ v fine same. run_started-Means path (later h files v)))
          (λ _. run_started-Means path w)

    module _ (program domain : String) (w : World b)
        (known : domain_of (parse_domain_index domain) ≡ some d) where
      -- The domain is opened, and the command carried out.
      opened-Means :
          (P : World b → Type 0) (name : String) (rest : List String)
          → ((v : World b) → Means h files P (command h files d name rest v))
          → Means h files P (on_domain h files (domain_of (parse_domain_index domain)) name rest w)
      opened-Means P name rest all =
          subst (λ o. Means h files P (on_domain h files o name rest w)) (sym known)
            (throw_on_error-Means h files P (open_domain h d w) _
              (λ v fine same. all (later h files v)))

      start_command :
          (path : String)
          → Means h files
              (λ v. get_state h d v ≡ running_payload)
              (bmctl h files (program ∷ "start" ∷ domain ∷ path ∷ []) w)
      unfolding bmctl command
      start_command path =
          opened-Means _ "start" (path ∷ [])
            (λ v. start-Means _ path v _ (λ u seen. success-Means h files _ u seen))

      run_command :
          (path : String)
          → Means h files IsReady (bmctl h files (program ∷ "run" ∷ domain ∷ path ∷ []) w)
      unfolding bmctl command
      run_command path = opened-Means IsReady "run" (path ∷ []) (λ v. run-Means path v)

      terminate_command :
          Means h files IsReady (bmctl h files (program ∷ "terminate" ∷ domain ∷ []) w)
      unfolding bmctl command
      terminate_command = opened-Means IsReady "terminate" [] terminate-Means

      -- On a domain that can be opened, a status of zero means: of `bmctl start`, that the payload
      -- was seen running; of `bmctl run` and of `bmctl terminate`, that the monitor was seen ready.
      pub bmctl_lem :
          (path : String)
          → (let r = bmctl h files (program ∷ "start" ∷ domain ∷ path ∷ []) w in
              r.0 ≡ success → get_state h d r.1 ≡ running_payload)
            × (let r = bmctl h files (program ∷ "run" ∷ domain ∷ path ∷ []) w in
                r.0 ≡ success → get_state h d r.1 ≡ monitor_ready)
            × (let r = bmctl h files (program ∷ "terminate" ∷ domain ∷ []) w in
                r.0 ≡ success → get_state h d r.1 ≡ monitor_ready)
      unfolding Means
      bmctl_lem path = (start_command path, run_command path, terminate_command)

      -- On a domain that is opened and is not in reset, `bmctl boot` changes nothing further, and
      -- its status is zero.
      pub bmctl-boot_refused :
          (v : World b)
          → open_domain h d w ≡ (done, v)
          → get_state h d (later h files v) ≢ in_reset
          → bmctl h files (program ∷ "boot" ∷ domain ∷ []) w ≡ (success, later h files v)
      unfolding bmctl command boot
      bmctl-boot_refused v opened other =
          let refused : (get_state h d (later h files v) is in_reset) ≡ false =
            elim (Bool-cases (get_state h d (later h files v) is in_reset)) [
              | inl same ↦ absurd (other (is_iff _ _ same))
              | inr e ↦ e
            ] in
          ap (λ o. on_domain h files o "boot" [] w) known
          ∙ ap (λ m. throw_on_error h files m (λ u. command h files d "boot" [] (later h files u)))
              opened
          ∙ rw (refused, if◌then◌else◌) refl
