-- ===== src/Tests/SsdTests.antt =====
-- The theorem about the SSD at a concrete message.
use pi_ssc_ssd_ssa.Common.{◌+◌, ◌≡◌, refl, true, some, [], ◌∷◌, arith, replicate}
use pi_ssc_ssd_ssa.Public.{port_num}
use pi_ssc_ssd_ssa.Public.Message.{LearnSta, Msg, message, learn_sta, msgid_mac_inter_learn}
use pi_ssc_ssd_ssa.Ssd.{Card, Ssd, ssd_mac_recv_ssc_command}
use pi_ssc_ssd_ssa.Ssd.Forward.{ssd_mac_recv_ssc_command-converted}

abbrev card : Card
card = record { ce2fe = λ p. p + 100; fe2ce = λ p. p; alloc = true }

abbrev quiet : Ssd
quiet = record { to_ssa = []; to_ssc = [] }

abbrev learning : LearnSta
learning = record { port_id = replicate (port_num + 1) 6; status = 3 }

abbrev learn_message : Msg
learn_message = message msgid_mac_inter_learn (learn_sta learning)

-- The places 1 to 24 hold 106 for the SSA.
abbrev told : Ssd
told = record quiet {
  to_ssa =
      message msgid_mac_inter_learn
        (learn_sta (record learning { port_id = 6 ∷ replicate port_num 106 }))
      ∷ [];
}

ssd_mac_recv_ssc_command-converted_example :
    ssd_mac_recv_ssc_command card learn_message quiet ≡ some told
unfolding pi_ssc_ssd_ssa.Ssd.Forward.converted replicate
ssd_mac_recv_ssc_command-converted_example =
    ssd_mac_recv_ssc_command-converted card learn_message quiet refl (omega arith) refl
