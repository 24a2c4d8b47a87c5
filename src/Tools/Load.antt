-- ===== src/Tools/Load.antt =====
-- What it says that a payload was loaded by `loadPayloadFromFileOrThrow` of
-- src/manager/domain_helpers.cpp.
use Prim.Native.String.{String}
use bmboot.Base.{ℕ, ◌≡◌, refl, ap, ◌∙◌, Option, none, some, List, if_ind}
use bmboot.Bus.{Bus}
use bmboot.Types.{running_payload}
use bmboot.Manager.{World, Host, Outcome, done, failed, fault}
use bmboot.Manager.Domain.{IDomain, Brings, Contract}
use bmboot.Tools.{
  Exit, success, failure, exception, Files, return_on_error, throw_on_error, load_program,
  load_payload_from_file_or_throw,
}
use bmboot.Crc.{crc32}

module _ {b : Bus} (h : Host b) (files : Files b) where
  -- What a status of zero means, where `P` holds of the machine at each success.
  unfoldable pub Means : (World b → Type 0) → Exit × World b → Type 0
  Means P r = r.0 ≡ success → P r.1

  pub failure-Means : (P : World b → Type 0) (w : World b) → Means P (failure, w)
  unfolding Means
  failure-Means P w = λ e. cc

  pub success-Means : (P : World b → Type 0) (w : World b) → P w → Means P (success, w)
  unfolding Means
  success-Means P w holds = λ e. holds

  pub return_on_error-Means :
      (P : World b → Type 0) (m : Outcome × World b) (next : World b → Exit × World b)
      → ((v : World b) → m.0 ≡ done → v ≡ m.1 → Means P (next v))
      → Means P (return_on_error h files m next)
  unfolding Means
  return_on_error-Means P (done, w) next all = all w refl refl
  return_on_error-Means P (failed e, w) next all = λ e. cc
  return_on_error-Means P (fault, w) next all = λ e. cc

  pub throw_on_error-Means :
      (P : World b → Type 0) (m : Outcome × World b) (next : World b → Exit × World b)
      → ((v : World b) → m.0 ≡ done → v ≡ m.1 → Means P (next v))
      → Means P (throw_on_error h files m next)
  unfolding Means
  throw_on_error-Means P (done, w) next all = all w refl refl
  throw_on_error-Means P (failed e, w) next all = λ e. cc
  throw_on_error-Means P (fault, w) next all = λ e. cc

  -- Whatever the domain is, if it keeps the contract.
  module _ (i : IDomain (World b)) (c : Contract i) where
    load_program-Brings :
        (path : String) (program : List ℕ)
        → Brings i (load_program h files i path program) running_payload
    unfolding load_program
    load_program-Brings path program w =
        if_ind (λ (r : Outcome × World b). r.0 ≡ done → i.get_state r.1 ≡ running_payload)
          (files.is_elf path) (λ _. c.elf_brings program 1234 w)
          (λ _. c.load_brings program (crc32 0 program) 123 w)

    -- A file that is loaded, and what follows it.
    pub load-Means :
        (P : World b → Type 0) (path : String) (w : World b) (next : World b → Exit × World b)
        → ((v : World b) → i.get_state v ≡ running_payload → Means P (next v))
        → Means P (load_payload_from_file_or_throw h files i path w next)
    unfolding load_payload_from_file_or_throw Means
    load-Means P path w next all = go (files.read_file path)
      where
        go :
            (o : Option (List ℕ))
            → Means P (elim o [
              | none ↦ (exception, w)
              | some program ↦ throw_on_error h files (load_program h files i path program w) next
            ])
        go none = λ e. cc
        go (some program) =
            throw_on_error-Means P (load_program h files i path program w) next
              (λ v fine same. all v (ap i.get_state same ∙ load_program-Brings path program w fine))
