-- ===== src/Tests/StaticTests.antt =====
-- A static address on its way to the chip, at concrete states.
use pi_ssc_ssd_ssa.Common.{◌+◌, ◌≡◌, refl, true, some, [], ◌∷◌, ◌++◌}
use pi_ssc_ssd_ssa.Public.{Entry}
use pi_ssc_ssd_ssa.Public.Message.{Msg}
use pi_ssc_ssd_ssa.Table.{entries}
use pi_ssc_ssd_ssa.Table.Chain.{lookup}
use pi_ssc_ssd_ssa.Pi.Db.{IsDb}
use pi_ssc_ssd_ssa.Pi.Learn.{static_at}
use pi_ssc_ssd_ssa.Pi.Server.{send_loop}
use pi_ssc_ssd_ssa.Pi.Cli.{Console, set_static, command}
use pi_ssc_ssd_ssa.Ssc.Db.{static_key}
use pi_ssc_ssd_ssa.Ssc.Comm.{Platform, Ssc, ssc_recevie_msg_pi}
use pi_ssc_ssd_ssa.Ssc.Invariant.{IsSscDb}
use pi_ssc_ssd_ssa.Ssd.{Card, Ssd, ssd_mac_recv_ssc_command}
use pi_ssc_ssd_ssa.Ssa.{ssa_mac_recv_ssd_comm}
use pi_ssc_ssd_ssa.System.Static.{chip_addr, static_command-chip}
use pi_ssc_ssd_ssa.Tests.Instances.{chains, env}
use pi_ssc_ssd_ssa.Tests.PiTests.{fresh-IsDb}
use pi_ssc_ssd_ssa.Tests.SscTests.{ssc, platform, printer, ssc_fresh-IsSscDb}
use pi_ssc_ssd_ssa.Tests.SsaTests.{chip, silent, quiet}
use pi_ssc_ssd_ssa.Tests.CliTests.{net, l, console}

abbrev rack : Platform
rack = record platform { phyid = λ p. p + 100 }

abbrev line_card : Card
line_card = record { ce2fe = λ p. p + 20; fe2ce = λ p. p; alloc = true }

-- The port 2 of the command is 122 for the chip.
static_command-chip_example :
    (m1 : Msg) × (m2 : Msg) × (m3 : Msg) × (c : Console chains) × (s : Ssc chains) × (ssd : Ssd)
    × (e1 : Entry) × (e2 : Entry) × (command chains env net 0 (set_static printer.mac 30 2) console
        ≡ some c)
    × (c.sent ≡ [] ++ ((m1, send_loop net.wrote (some 3) l) ∷ []))
    × (static_at chains (static_key printer) c.db ≡ some e1)
    × (e1.port_id ≡ 2)
    × (ssc_recevie_msg_pi chains env rack m1 ssc ≡ some s)
    × (s.to_ssd ≡ [] ++ (m2 ∷ []))
    × (lookup (static_key printer) (entries chains s.db.static_tbl) ≡ some e2)
    × (e2.port_id ≡ 102)
    × (ssd_mac_recv_ssc_command line_card m2 quiet ≡ some ssd)
    × (ssd.to_ssa ≡ [] ++ (m3 ∷ []))
    × (ssa_mac_recv_ssd_comm chip m3 silent
        ≡ some (record silent {
          hw = chip.l2_addr_add (chip_addr chains env chip line_card rack printer) [];
        }))
    × IsDb chains c.db
    × IsSscDb chains s.db
static_command-chip_example =
    static_command-chip chains env chip line_card rack net 0 (some 3) l printer console ssc quiet
      silent refl refl refl refl refl fresh-IsDb ssc_fresh-IsSscDb
