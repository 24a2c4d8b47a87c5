-- ===== src/Tests/Tools.antt =====
-- The tools on a domain named "cpu1".
use bmboot.Base.{◌≡◌, refl, [], ◌∷◌, some, false}
use bmboot.Types.{monitor_ready, running_payload}
use bmboot.Types.Names.{parse_domain_index}
use bmboot.Manager.{World, cpu1, done, unavailable, set_general}
use bmboot.Manager.State.{get_state}
use bmboot.Manager.Domain.{Contract, domain}
use bmboot.Manager.Domain.Promises.{domain-Contract}
use bmboot.Manager.Boot.{is_core_in_reset}
use bmboot.Manager.Open.{open_domain}
use bmboot.Tools.{Files, success, domain_of}
use bmboot.Tools.Bmctl.{bmctl, dump}
use bmboot.Tools.Bmctl.Statuses.{bmctl_lem}
use bmboot.Tests.Fixtures.{bus, world, host, device}
use bmboot.Tests.Coredump.{io, structs, map_at, memory}
use bmboot.Manager

-- Every file can be read, and has two bytes.
abbrev files : Files bus
files = record {
  read_file = λ path. some (1 ∷ 2 ∷ []);
  is_elf = λ path. false;
  elf = λ pread alloc. record { err = false; store = λ m. m; e_entry = 0; base_load_paddr = 0 };
  watched = λ w. [];
  io = io;
  structs = structs;
  map_at = map_at;
  elsewhere = memory;
  core_file = [];
}

named : domain_of (parse_domain_index "cpu1") ≡ some cpu1
unfolding parse_domain_index
named = refl

abbrev ready : World bus
ready = world Manager.monitor_started 1

bmctl_lem_example :
    (let r = bmctl (host 1) files ("bmctl" ∷ "start" ∷ "cpu1" ∷ "payload" ∷ []) ready in
      r.0 ≡ success → get_state (host 1) cpu1 r.1 ≡ running_payload)
    × (let r = bmctl (host 1) files ("bmctl" ∷ "run" ∷ "cpu1" ∷ "payload" ∷ []) ready in
        r.0 ≡ success → get_state (host 1) cpu1 r.1 ≡ monitor_ready)
    × (let r = bmctl (host 1) files ("bmctl" ∷ "terminate" ∷ "cpu1" ∷ []) ready in
        r.0 ≡ success → get_state (host 1) cpu1 r.1 ≡ monitor_ready)
bmctl_lem_example = bmctl_lem (host 1) files cpu1 "bmctl" "cpu1" ready named "payload"

-- The core is out of reset, and there is no cookie.
abbrev foreign : World bus
foreign = record ready { device = record device { words = λ a. 0 } }

opened : open_domain (host 1) cpu1 foreign ≡ (done, set_general foreign cpu1 unavailable)
unfolding open_domain is_core_in_reset
opened = refl

domain-Contract_example : Contract (domain (host 1) files.elf (dump (host 1) files cpu1) cpu1)
domain-Contract_example = domain-Contract (host 1) files.elf (dump (host 1) files cpu1) cpu1
