-- ===== src/Ssa.antt =====
-- ssa/ssa_mac_init.c: the process that calls the driver of the switching chip.
use Prim.Native.Nat.{bit_and, bit_or}
use pi_ssc_ssd_ssa.Common.{
  ℕ, zero, suc, ◌+◌, ◌-◌, ◌%◌, ◌^◌, Option, none, some, List, [], ◌∷◌, ◌++◌, ◌==◌, Bool, get_or,
  if◌then◌else◌,
}
use pi_ssc_ssd_ssa.Public.{Mac, Entry, StaticMac, zero_entry, port_num, u32_mod}
use pi_ssc_ssd_ssa.Public.Message.{
  LearnSta, Payload, int_arg, static_mac, mac_entry, learn_sta, Msg, message, msgid_mac_add_addr,
  msgid_mac_clear_dyn, msgid_clear_vlan_mac, msgid_clear_inter_dyn, msgid_mac_inter_learn,
  msgid_mac_agetime,
}
pub mod Driver
use pi_ssc_ssd_ssa.Ssa.Driver.{Chip, L2Addr}
pub mod Learn
pub mod Notify

-- The state of the chip, and what was sent to the SSD, the oldest first.
pub record Ssa (chip : Chip) : Type 0 where
  pub hw : chip.State
  pub to_ssd : List Msg

module _ (chip : Chip) where
  unfoldable pub esw_mac_flag_to_hw : ℕ → ℕ
  esw_mac_flag_to_hw usr_flag =
      if bit_and usr_flag chip.mac_flag_static == 0
      then chip.l2_src_hit
      else bit_or (bit_or chip.l2_static chip.l2_replace_dynamic) chip.l2_src_hit

  -- `(unsigned short)` takes the VLAN modulo 2^16.
  unfoldable pub ssa_add_static_func : Payload → Ssa chip → Option (Ssa chip)
  ssa_add_static_func (static_mac a) s =
      let l2_addr : L2Addr = record {
        mac = a.mac;
        vid = a.vlan_id % 2 ^ 16;
        port = chip.port_to_hw chip.mac_flag_static a.port_id;
        modid = 0;
        flags = esw_mac_flag_to_hw chip.mac_flag_static;
      } in
      some (record s { hw = chip.l2_addr_add l2_addr s.hw })
  ssa_add_static_func p s = none

  unfoldable pub ssa_clear_dyn_func : Payload → Ssa chip → Option (Ssa chip)
  ssa_clear_dyn_func p s = some (record s { hw = chip.l2_replace_delete s.hw })

  unfoldable pub ssa_clear_vlan_func : Payload → Ssa chip → Option (Ssa chip)
  ssa_clear_vlan_func (int_arg vlan) s =
      some (record s { hw = chip.delete_by_vlan (vlan % 2 ^ 16) s.hw })
  ssa_clear_vlan_func p s = none

  unfoldable pub ssa_clear_inter_func : Payload → Ssa chip → Option (Ssa chip)
  ssa_clear_inter_func (int_arg port_id) s =
      some (record s { hw = chip.delete_by_port (chip.port_to_hw chip.mac_flag_dyn port_id) s.hw })
  ssa_clear_inter_func p s = none

  unfoldable pub ssa_modify_age_time : Payload → Ssa chip → Option (Ssa chip)
  ssa_modify_age_time (int_arg age_timer) s =
      some (record s { hw = chip.age_timer_set age_timer s.hw })
  ssa_modify_age_time p s = none

  -- The body of the loop: the three learning flags are cleared and the status is put in.
  unfoldable pub learn_port : ℕ → ℕ → chip.State → chip.State
  learn_port phyid status hw =
      let (unit, port) = chip.unit_port_from_phyid phyid in
      let flags = chip.learn_get unit port hw in
      let kept = bit_and flags (u32_mod - 1 - chip.learn_mask) in
      chip.learn_set unit port (bit_or kept status) hw

  -- `for (i = 1; i < PORT_NUM; i++)`: rounds left, and `i`.
  unfoldable pub learn_rounds : ℕ → ℕ → LearnSta → chip.State → chip.State
  learn_rounds zero i tmp hw = hw
  learn_rounds (suc n) i tmp hw =
      learn_rounds n (i + 1) tmp (learn_port (get_or tmp.port_id i 0) tmp.status hw)

  unfoldable pub ssa_modify_inter_lean_sta : Payload → Ssa chip → Option (Ssa chip)
  ssa_modify_inter_lean_sta (learn_sta tmp) s =
      some (record s { hw = learn_rounds (port_num - 1) 1 tmp s.hw })
  ssa_modify_inter_lean_sta p s = none

  -- `ssa_mac_drv`, as `ssa_mac_drv_func_init` sets the array.
  abbrev pub ssa_mac_drv : ℕ → Payload → Ssa chip → Option (Ssa chip)
  ssa_mac_drv msgid p s =
      if msgid == msgid_mac_add_addr
      then ssa_add_static_func p s
      else if msgid == msgid_mac_clear_dyn
      then ssa_clear_dyn_func p s
      else if msgid == msgid_clear_vlan_mac
      then ssa_clear_vlan_func p s
      else if msgid == msgid_clear_inter_dyn
      then ssa_clear_inter_func p s
      else if msgid == msgid_mac_inter_learn
      then ssa_modify_inter_lean_sta p s
      else if msgid == msgid_mac_agetime
      then ssa_modify_age_time p s
      else none

  unfoldable pub ssa_mac_recv_ssd_comm : Msg → Ssa chip → Option (Ssa chip)
  ssa_mac_recv_ssd_comm m s = ssa_mac_drv m.msg_type m.msg s

  -- The port of an address of the chip, as the other processes number it.
  abbrev pub convert_port_to_usr : L2Addr → ℕ
  convert_port_to_usr l2addr = chip.phyid_from_chip_port l2addr.modid l2addr.port

  -- The type of the message is not set: `junk`.
  unfoldable pub ssa_send_to_ssd : ℕ → Entry → Ssa chip → Ssa chip
  ssa_send_to_ssd junk e s =
      if chip.alloc then record s { to_ssd = s.to_ssd ++ (message junk (mac_entry e) ∷ []) } else s

  -- The chip tells of an address, learnt (`insert` 1) or gone (0); `flags` is a u8.
  unfoldable pub mac_clbk : ℕ → L2Addr → ℕ → Ssa chip → Ssa chip
  mac_clbk junk l2addr insert s =
      let tmp : Entry = record zero_entry {
        flags = insert % 2 ^ 8;
        mac = l2addr.mac;
        vlan_id = l2addr.vid;
        addr_type = chip.mac_flag_dyn;
        port_id = convert_port_to_usr l2addr;
      } in
      if bit_and l2addr.flags chip.l2_static == 0 then ssa_send_to_ssd junk tmp s else s
