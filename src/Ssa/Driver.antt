-- ===== src/Ssa/Driver.antt =====
-- The driver of the chip, which is not part of the repository: what ssa/ssa_mac_init.c uses of it.
use pi_ssc_ssd_ssa.Common.{ℕ, Bool}
use pi_ssc_ssd_ssa.Public.{Mac}

-- `bcm_l2_addr_t`, the fields that the source names.
pub record L2Addr : Type 0 where
  pub mac : Mac
  pub vid : ℕ
  pub port : ℕ
  pub modid : ℕ
  pub flags : ℕ

pub record Chip : Type 1 where
  pub State : Type 0
  -- `bcm_l2_addr_add`, `bcm_l2_replace` with BCM_L2_REPLACE_DELETE, `bcm_l2_addr_delete_by_vlan`,
  -- `bcm_l2_addr_delete_by_port`, `bcm_l2_age_timer_set`
  pub l2_addr_add : L2Addr → State → State
  pub l2_replace_delete : State → State
  pub delete_by_vlan : ℕ → State → State
  pub delete_by_port : ℕ → State → State
  pub age_timer_set : ℕ → State → State
  -- `bcm_port_learn_get` and `bcm_port_learn_set`, by unit and port
  pub learn_get : ℕ → ℕ → State → ℕ
  pub learn_set : ℕ → ℕ → ℕ → State → State
  -- `esw_mac_port_to_hw` by flag and port, `ssa_mac_get_unit_port_from_phyid`, and
  -- `ssa_mac_get_phyid_from_chip_port`: what they leave in the variables they are given
  pub port_to_hw : ℕ → ℕ → ℕ
  pub unit_port_from_phyid : ℕ → ℕ × ℕ
  pub phyid_from_chip_port : ℕ → ℕ → ℕ
  -- MAC_FLAG_STATIC, MAC_FLAG_DYN, BCM_L2_STATIC, BCM_L2_REPLACE_DYNAMIC, BCM_L2_SRC_HIT, and
  -- BCM_PORT_LEARN_ARL | BCM_PORT_LEARN_FWD | BCM_PORT_LEARN_CPU
  pub mac_flag_static : ℕ
  pub mac_flag_dyn : ℕ
  pub l2_static : ℕ
  pub l2_replace_dynamic : ℕ
  pub l2_src_hit : ℕ
  pub learn_mask : ℕ
  -- whether `ss_info_alloc_init` gives a message
  pub alloc : Bool
