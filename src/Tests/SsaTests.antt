-- ===== src/Tests/SsaTests.antt =====
-- The theorems about the SSA with a chip that notes the flags it is given.
use pi_ssc_ssd_ssa.Common.{
  ℕ, ◌≡◌, ◌++◌, refl, true, some, List, [], ◌∷◌, replicate, set, length-replicate,
}
use pi_ssc_ssd_ssa.Public.Message.{
  LearnSta, learn_sta, Msg, message, mac_entry, msgid_mac_inter_learn,
}
use pi_ssc_ssd_ssa.Ssa.Driver.{Chip, L2Addr}
use pi_ssc_ssd_ssa.Ssa.{Ssa, ssa_mac_recv_ssd_comm, mac_clbk}
use pi_ssc_ssd_ssa.Ssa.Learn.{ssa_mac_recv_ssd_comm-last_port}
use pi_ssc_ssd_ssa.Ssa.Notify.{notice, mac_clbk-notice}
use pi_ssc_ssd_ssa.Ssd.{Card, Ssd, ssd_mac_recv_ssa_msg}
use pi_ssc_ssd_ssa.Tests.Instances.{plain_mac}

abbrev pub chip : Chip
chip = record {
  State = List ℕ;
  l2_addr_add = λ a hw. a.port ∷ hw;
  l2_replace_delete = λ hw. [];
  delete_by_vlan = λ v hw. hw;
  delete_by_port = λ p hw. hw;
  age_timer_set = λ a hw. hw;
  learn_get = λ u p hw. 0;
  learn_set = λ u p f hw. f ∷ hw;
  port_to_hw = λ f p. p;
  unit_port_from_phyid = λ p. (0, p);
  phyid_from_chip_port = λ m p. p;
  mac_flag_static = 2;
  mac_flag_dyn = 1;
  l2_static = 32;
  l2_replace_dynamic = 64;
  l2_src_hit = 8;
  learn_mask = 7;
  alloc = true;
}

abbrev pub card : Card
card = record { ce2fe = λ p. p; fe2ce = λ p. p; alloc = true }

abbrev pub silent : Ssa chip
silent = record { hw = []; to_ssd = [] }

abbrev pub quiet : Ssd
quiet = record { to_ssa = []; to_ssc = [] }

abbrev all_ports : LearnSta
all_ports = record { port_id = replicate 25 6; status = 3 }

ssa_mac_recv_ssd_comm-last_port_example :
    ssa_mac_recv_ssd_comm chip
      (message msgid_mac_inter_learn
        (learn_sta (record all_ports { port_id = set all_ports.port_id 24 9 })))
      silent
    ≡ ssa_mac_recv_ssd_comm chip (message msgid_mac_inter_learn (learn_sta all_ports)) silent
ssa_mac_recv_ssd_comm-last_port_example =
    ssa_mac_recv_ssd_comm-last_port chip 9 all_ports silent (length-replicate 25 6)

abbrev pub seen : L2Addr
seen = record { mac = plain_mac; vid = 10; port = 3; modid = 0; flags = 8 }

mac_clbk-notice_example :
    (m : Msg) × ((mac_clbk chip 0 seen 1 silent).to_ssd ≡ [] ++ (m ∷ []))
    × (ssd_mac_recv_ssa_msg card m quiet
        ≡ some (record quiet { to_ssc = message 0 (mac_entry (notice chip card seen 1)) ∷ [] }))
mac_clbk-notice_example = mac_clbk-notice chip card 0 1 seen silent quiet refl refl refl
