-- ===== src/Tests/CliTests.antt =====
-- Commands at concrete databases.
use pi_ssc_ssd_ssa.Common.{
  ℕ, ◌≡◌, refl, true, none, some, List, [], ◌∷◌, ◌++◌, ltb, leb, get_or, if◌then◌else◌,
  length-replicate, replicate,
}
use pi_ssc_ssd_ssa.Public.{Key, port_num}
use pi_ssc_ssd_ssa.Public.Message.{message, int_arg, msgid_mac_inter_learn, msgid_clear_inter_dyn}
use pi_ssc_ssd_ssa.Table.{entries}
use pi_ssc_ssd_ssa.Table.Chain.{lookup, discard}
use pi_ssc_ssd_ssa.Pi.Db.{IsDb}
use pi_ssc_ssd_ssa.Pi.Local.{learn_status}
use pi_ssc_ssd_ssa.Pi.Learn.{dyn_at, static_at}
use pi_ssc_ssd_ssa.Pi.Server.{Fd, send_loop}
use pi_ssc_ssd_ssa.Pi.Cli.{Net, Console, clear_vlan, clear_interface, learn, command}
use pi_ssc_ssd_ssa.Pi.Cli.Done.{order, argument, status_or, Done, command-Done}
use pi_ssc_ssd_ssa.Ssc.Db.{on_port, ssc_db_init}
use pi_ssc_ssd_ssa.Ssc.Comm.{Platform, Ssc, ssc_recevie_msg_pi}
use pi_ssc_ssd_ssa.Ssc.Invariant.{IsSscDb}
use pi_ssc_ssd_ssa.Ssc.Learn.{learn_command-ports}
use pi_ssc_ssd_ssa.Ssc.Interface.{clear_interface_command-sides}
use pi_ssc_ssd_ssa.Tests.Instances.{chains, env}
use pi_ssc_ssd_ssa.Tests.PiTests.{fresh, fresh-IsDb}
use pi_ssc_ssd_ssa.Tests.SscTests.{ssc, platform, both_fresh}

abbrev pub net : Net
net = record { mem = true; wrote = λ f. true }

abbrev pub l : List Fd
l = some 7 ∷ none ∷ none ∷ none ∷ []

abbrev pub console : Console chains
console = record { db = fresh; g_client = some 3 ∷ l; sent = []; said = [] }

command-Done_example :
    (c : Console chains) × (command chains env net 0 (clear_vlan 10) console ≡ some c)
    × Done chains env (order 0 (clear_vlan 10)) (send_loop net.wrote (some 3) l) console c
command-Done_example =
    command-Done chains env net 0 (some 3) l (clear_vlan 10) console refl refl fresh-IsDb

-- "on", and zero bytes up to the length that is copied.
abbrev word : List ℕ
word = b'o' ∷ b'n' ∷ replicate 30 0

learn_command-ports_example :
    let known = learn_status (argument word) in
    let m = message msgid_mac_inter_learn (int_arg (status_or 77 known)) in
    (c : Console chains) × (s : Ssc chains) × (command chains env net 77 (learn word) console
      ≡ some c)
    × (c.sent ≡ [] ++ ((m, send_loop net.wrote (some 3) l) ∷ []))
    × (ssc_recevie_msg_pi chains env platform m ssc ≡ some s)
    × ((j : ℕ)
        → get_or c.db.port_status j 0 ≡ (elim known [
          | some v ↦ if ltb j port_num then v else get_or fresh.port_status j 0
          | none ↦ get_or fresh.port_status j 0
        ]))
    × ((j : ℕ)
        → get_or s.db.port_status j 0
          ≡ (if leb j port_num then status_or 77 known else get_or ssc.db.port_status j 0))
unfolding ssc_db_init
learn_command-ports_example =
    learn_command-ports chains env net 77 word (some 3) l console platform ssc refl refl fresh-IsDb
      refl (length-replicate 25 0)

abbrev shifted : Platform
shifted = record platform { phyid = λ p. 64 }

clear_interface_command-sides_example :
    let m = message msgid_clear_inter_dyn (int_arg 3) in
    (c : Console chains) × (s : Ssc chains) × (command chains env net 0 (clear_interface 3) console
      ≡ some c)
    × (c.sent ≡ [] ++ ((m, send_loop net.wrote (some 3) l) ∷ []))
    × (ssc_recevie_msg_pi chains env shifted m ssc ≡ some s)
    × IsDb chains c.db
    × IsSscDb chains s.db
    × ((q : Key)
        → (dyn_at chains q c.db ≡ discard (on_port 3) (dyn_at chains q fresh))
          × (static_at chains q c.db ≡ discard (on_port 3) (static_at chains q fresh))
          × (lookup q (entries chains s.db.dyn_tbl) ≡ discard (on_port 64) (dyn_at chains q fresh)))
clear_interface_command-sides_example =
    clear_interface_command-sides chains env net 0 3 (some 3) l console shifted ssc refl refl
      both_fresh
