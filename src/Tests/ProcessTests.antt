-- ===== src/Tests/ProcessTests.antt =====
-- The process of the SSC at concrete states.
use pi_ssc_ssd_ssa.Common.{
  ℕ, ◌≡◌, refl, true, some, [], ◌&&◌, ltb, leb, get_or, length-replicate, if◌then◌else◌,
}
use pi_ssc_ssd_ssa.Public.{port_num}
use pi_ssc_ssd_ssa.Public.Message.{mac_entry}
use pi_ssc_ssd_ssa.Ssc.Db.{ssc_db_init}
use pi_ssc_ssd_ssa.Ssc.Comm.{Ssc}
use pi_ssc_ssd_ssa.Pi.Handlers.{pthread_ds_fun}
use pi_ssc_ssd_ssa.Ssc.Invariant.{IsSscDb}
use pi_ssc_ssd_ssa.Ssc.Config.{recevie_all, pthread_ds_fun-ports}
use pi_ssc_ssd_ssa.Ssc.Process.{Process, connecting, connect, notified, step}
use pi_ssc_ssd_ssa.Ssc.Process.Alive.{Reach, start, process-goes_on}
use pi_ssc_ssd_ssa.Tests.Instances.{chains, env, host}
use pi_ssc_ssd_ssa.Tests.PiTests.{fresh}
use pi_ssc_ssd_ssa.Tests.SscTests.{ssc, platform, ssc_fresh-IsSscDb}

abbrev begun : Process chains
begun = record { ssc = ssc; link = connecting; threads = [] }

-- A connection is made, and then a host is learnt, in between the parts of the thread.
abbrev connected : Process chains
connected =
    (process-goes_on chains env platform begun begun (connect true true) refl ssc_fresh-IsSscDb
      start refl).1

process-goes_on_example :
    IsSscDb chains connected.ssc.db
    × (r : Process chains) × (step chains env platform (notified (mac_entry host)) connected
        ≡ some r)
    × Reach chains env platform begun r
process-goes_on_example =
    process-goes_on chains env platform begun connected (notified (mac_entry host)) refl
      ssc_fresh-IsSscDb
      (process-goes_on chains env platform begun begun (connect true true) refl ssc_fresh-IsSscDb
        start refl).3
      refl

pthread_ds_fun-ports_example :
    (s : Ssc chains) × (recevie_all chains env platform (pthread_ds_fun chains 9 fresh) ssc
      ≡ some s)
    × (s.db.age_time ≡ fresh.age_time)
    × ((j : ℕ)
        → get_or s.db.port_status j 0 ≡ (
            if leb 1 j && ltb j port_num
            then get_or fresh.port_status j 0
            else get_or ssc.db.port_status j 0))
    × (s.db.static_tbl ≡ ssc.db.static_tbl)
    × (s.db.dyn_tbl ≡ ssc.db.dyn_tbl)
    × (s.ds_is_end ≡ true)
    × (s.waiting ≡ 1)
unfolding ssc_db_init
pthread_ds_fun-ports_example =
    pthread_ds_fun-ports chains env platform 9 fresh ssc refl (length-replicate 25 0)
