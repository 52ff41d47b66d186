-- ===== src/Tests/HostTests.antt =====
-- The management process at concrete states.
use pi_ssc_ssd_ssa.Common.{ℕ, ◌≡◌, ◌≢◌, refl, true, false, none, some, List, arith}
use pi_ssc_ssd_ssa.Pi.Cli.{clear_dynamic}
use pi_ssc_ssd_ssa.Pi.Process.{HostEvent, handled, called, Host, pi_step}
use pi_ssc_ssd_ssa.Pi.Process.Steps.{IsHost}
use pi_ssc_ssd_ssa.Pi.Process.Alive.{Reach, start, at_start, host-goes_on}
use pi_ssc_ssd_ssa.Pi.Main.{main, running, main_steps}
use pi_ssc_ssd_ssa.Pi.Main.Unmade.{main-unmade}
use pi_ssc_ssd_ssa.Tests.Instances.{chains, queues, env}

abbrev at_first : Host chains queues
at_first = at_start chains queues 3 none

abbrev clearing : HostEvent
clearing = called env (record { mem = true; wrote = λ f. true }) 0 clear_dynamic

abbrev cleared : Host chains queues
cleared = (host-goes_on chains queues 3 none at_first clearing start refl).1

host-goes_on_example :
    IsHost chains queues cleared
    × (h : Host chains queues) × (pi_step chains queues (handled env true) cleared ≡ some h)
    × Reach chains queues at_first h
host-goes_on_example =
    host-goes_on chains queues 3 none cleared (handled env true)
      (host-goes_on chains queues 3 none at_first clearing start refl).3 tt

-- The handling thread could not be made.
main-unmade_example :
    (main true 11 0 0 ≡ running false true)
    × (◌≢◌ {A = ℕ} 11 0
        → (es : List HostEvent) (h : Host chains queues)
        → main_steps chains queues (main true 11 0 0) es at_first ≡ some h
        → h.pi.threads ≡ 0)
main-unmade_example = main-unmade chains queues 11 0 3 none (omega arith) (omega arith)
