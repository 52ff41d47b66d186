-- ===== src/Tests/RaceTests.antt =====
-- The loops that take no mutex, at concrete orders of their rounds.
use pi_ssc_ssd_ssa.Common.{
  ℕ, zero, suc, ◌≤◌, ◌≡◌, refl, ◌⊎◌, some, List, [], ◌∷◌, ◌&&◌, arith, leb, ltb, get_or,
  length-replicate, count_if, if◌then◌else◌,
}
use pi_ssc_ssd_ssa.Public.{port_num}
use pi_ssc_ssd_ssa.Public.Compare.{same_text}
use pi_ssc_ssd_ssa.Public.Message.{message, int_arg, msgid_mac_inter_learn, mac_unfwd_unlearn}
use pi_ssc_ssd_ssa.Pi.Local.{disable_text, learn_status, pi_local_learn_sta}
use pi_ssc_ssd_ssa.Pi.Race.{Turn, reads, writes, Race, begun, turns, ds_messages}
use pi_ssc_ssd_ssa.Pi.Race.Orders.{turns-old_or_new}
use pi_ssc_ssd_ssa.Ssc.Comm.{Ssc}
use pi_ssc_ssd_ssa.Ssc.Config.{recevie_all}
use pi_ssc_ssd_ssa.Ssc.Torn.{torn, learn_command-torn}
use pi_ssc_ssd_ssa.Ssc.Db.{ssc_db_init}
use pi_ssc_ssd_ssa.Tests.Instances.{chains, env}
use pi_ssc_ssd_ssa.Tests.PiTests.{fresh, fresh-IsDb}
use pi_ssc_ssd_ssa.Tests.SscTests.{ssc, platform}

-- A round of each loop after the other.
abbrev by_turns : ℕ → List Turn
by_turns zero = []
by_turns (suc n) = reads ∷ writes ∷ by_turns n

abbrev raced : Race chains
raced = turns chains disable_text (by_turns port_num) (begun chains 9 fresh)

turns-old_or_new_example :
    (raced.db ≡ pi_local_learn_sta chains disable_text fresh)
    × ((j : ℕ)
        → 1 ≤ j
        → j ≤ port_num
        → (get_or raced.tmp.port_status j 0 ≡ get_or fresh.port_status j 0)
          ⊎ (get_or raced.tmp.port_status j 0 ≡ mac_unfwd_unlearn))
unfolding learn_status same_text count_if
turns-old_or_new_example =
    turns-old_or_new chains disable_text mac_unfwd_unlearn fresh (by_turns port_num) 9 refl
      fresh-IsDb (omega arith) (omega arith)

-- The ports 1 to 10 are read before the command, and the SSC ends with them on.
abbrev split : Race chains
split = turns chains disable_text (torn 10) (begun chains 9 fresh)

learn_command-torn_example :
    (s : Ssc chains) × (recevie_all chains env platform
        (message msgid_mac_inter_learn (int_arg mac_unfwd_unlearn) ∷ ds_messages chains split.tmp)
        ssc
      ≡ some s)
    × ((j : ℕ)
        → get_or split.db.port_status j 0
          ≡ (if ltb j port_num then mac_unfwd_unlearn else get_or fresh.port_status j 0))
    × ((j : ℕ)
        → get_or s.db.port_status j 0 ≡ (
            if leb 1 j && leb j 10 && ltb j port_num
            then get_or fresh.port_status j 0
            else if leb j port_num
            then mac_unfwd_unlearn
            else get_or ssc.db.port_status j 0))
unfolding learn_status same_text ssc_db_init
learn_command-torn_example =
    learn_command-torn chains env platform 10 9 mac_unfwd_unlearn disable_text fresh ssc
      (omega arith) refl fresh-IsDb refl (length-replicate 25 0)
