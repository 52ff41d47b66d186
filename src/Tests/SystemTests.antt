-- ===== src/Tests/SystemTests.antt =====
-- An address on its way through the four processes.
use pi_ssc_ssd_ssa.Common.{◌≡◌, refl, true, some, [], ◌∷◌, ◌++◌, arith}
use pi_ssc_ssd_ssa.Public.{Entry, key_of}
use pi_ssc_ssd_ssa.Public.Message.{Msg}
use pi_ssc_ssd_ssa.Pi.Handlers.{Pi, deal_msg}
use pi_ssc_ssd_ssa.Pi.Learn.{dyn_at}
use pi_ssc_ssd_ssa.Ssc.Comm.{Ssc, ssc_mac_update_recv}
use pi_ssc_ssd_ssa.Ssc.Notice.{Told}
use pi_ssc_ssd_ssa.Ssd.{Ssd, ssd_mac_recv_ssa_msg}
use pi_ssc_ssd_ssa.Ssa.{mac_clbk}
use pi_ssc_ssd_ssa.System.{learnt_address}
use pi_ssc_ssd_ssa.Tests.Instances.{chains, env, host}
use pi_ssc_ssd_ssa.Tests.TableTests.{plain_mac-IsPlain}
use pi_ssc_ssd_ssa.Tests.SscTests.{ssc, pi, platform, both_fresh}
use pi_ssc_ssd_ssa.Tests.SsaTests.{chip, card, silent, quiet, seen}

learnt_address_example :
    (m1 : Msg) × (m2 : Msg) × (m3 : Msg) × (ssd : Ssd) × (s : Ssc chains) × (p : Pi chains)
    × (a : Entry) × ((mac_clbk chip 0 seen 1 silent).to_ssd ≡ [] ++ (m1 ∷ []))
    × (ssd_mac_recv_ssa_msg card m1 quiet ≡ some ssd)
    × (ssd.to_ssc ≡ [] ++ (m2 ∷ []))
    × (ssc_mac_update_recv chains env platform m2.msg ssc ≡ some s)
    × (s.to_pi ≡ [] ++ (m3 ∷ []))
    × (deal_msg chains env true m3 pi ≡ some p)
    × (dyn_at chains (key_of host) p.db ≡ some a)
    × (a.port_id ≡ 3)
    × Told chains s.db p.db
learnt_address_example =
    learnt_address chains env chip card platform true 0 1 seen silent quiet ssc pi refl refl refl
      refl plain_mac-IsPlain (omega arith) both_fresh
