-- ===== src/Ssa/Learn.antt =====
-- The learning state of the ports, from the SSC to the chip.
use pi_ssc_ssd_ssa.Common.{
  ℕ, zero, suc, ◌+◌, ◌≤◌, ◌<◌, ◌≡◌, refl, ◌∙◌, ap, false, some, arith, ◌==◌, length, get_or, set,
  get_or-set, if◌then◌else◌,
}
use pi_ssc_ssd_ssa.Public.{port_num}
use pi_ssc_ssd_ssa.Public.Message.{LearnSta, learn_sta, message, msgid_mac_inter_learn}
use pi_ssc_ssd_ssa.Ssa.Driver.{Chip}
use pi_ssc_ssd_ssa.Ssa.{Ssa, learn_rounds, ssa_modify_inter_lean_sta, ssa_mac_recv_ssd_comm}

module _ (chip : Chip) where
  -- Rounds that end before a place of the array do not read it.
  learn_rounds-set :
      (n i j x : ℕ) (tmp : LearnSta) (hw : chip.State)
      → j < length tmp.port_id
      → i + n ≤ j
      → learn_rounds chip n i (record tmp { port_id = set tmp.port_id j x }) hw
        ≡ learn_rounds chip n i tmp hw
  unfolding learn_rounds
  learn_rounds-set zero i j x tmp hw b h = refl
  learn_rounds-set (suc n) i j x tmp hw b h =
      let ne : (j == i) ≡ false = ground arith in
      let read : get_or (set tmp.port_id j x) i 0 ≡ get_or tmp.port_id i 0 =
        get_or-set tmp.port_id j i x 0 b ∙ ap (λ c. if c then x else get_or tmp.port_id i 0) ne in
      rw read (learn_rounds-set n (i + 1) j x tmp _ b (omega arith))

  -- A message with the learning state of 25 places is handled alike whatever place 24, the last
  -- port, holds.
  pub ssa_mac_recv_ssd_comm-last_port :
      (x : ℕ) (tmp : LearnSta) (s : Ssa chip)
      → length tmp.port_id ≡ port_num + 1
      → ssa_mac_recv_ssd_comm chip
          (message msgid_mac_inter_learn
            (learn_sta (record tmp { port_id = set tmp.port_id port_num x })))
          s
        ≡ ssa_mac_recv_ssd_comm chip (message msgid_mac_inter_learn (learn_sta tmp)) s
  unfolding ssa_mac_recv_ssd_comm ssa_modify_inter_lean_sta
  ssa_mac_recv_ssd_comm-last_port x tmp s size =
      ap (λ (hw : chip.State). some (record s { hw = hw }))
        (learn_rounds-set 23 1 port_num x tmp s.hw (omega arith) (omega arith))
