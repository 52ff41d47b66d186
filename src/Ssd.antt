-- ===== src/Ssd.antt =====
-- ssd/ssd_mac_init.c: the process on a line card, between the SSC and the SSA.
use pi_ssc_ssd_ssa.Common.{
  ℕ, ◌^◌, Bool, ◌&&◌, Option, none, some, List, [], ◌∷◌, ◌++◌, ◌==◌, ltb, get_or, fill,
  if◌then◌else◌,
}
use pi_ssc_ssd_ssa.Public.{port_num}
use pi_ssc_ssd_ssa.Public.Message.{
  LearnSta, Payload, nothing, int_arg, static_mac, mac_entry, learn_sta, Msg, message, msg_len,
  msgid_mac_add_addr, msgid_mac_clear_dyn, msgid_clear_vlan_mac, msgid_clear_inter_dyn,
  msgid_mac_inter_learn, msgid_mac_agetime,
}
pub mod Forward

-- The platform on the line card: `ss_phyid_ce2fe`, `ss_phyid_fe2ce`, and whether
-- `ss_info_alloc_init` gives a message.
pub record Card : Type 0 where
  pub ce2fe : ℕ → ℕ
  pub fe2ce : ℕ → ℕ
  pub alloc : Bool

-- What was sent to the SSA and to the SSC, the oldest first.
pub record Ssd : Type 0 where
  pub to_ssa : List Msg
  pub to_ssc : List Msg

module _ (card : Card) where
  unfoldable pub ssd_send_msg_ssc : Msg → Ssd → Ssd
  ssd_send_msg_ssc m s = if card.alloc then record s { to_ssc = s.to_ssc ++ (m ∷ []) } else s

  -- A notice of the SSA.
  unfoldable pub ssd_mac_recv_ssa_msg : Msg → Ssd → Option Ssd
  ssd_mac_recv_ssa_msg m s = elim m.msg [
    | mac_entry e ↦ some (
        ssd_send_msg_ssc
          (record m { msg = mac_entry (record e { port_id = card.fe2ce e.port_id }) }) s)
    | _ ↦ none
  ]

  -- The type and the length are set first, and where the length is above 0, as an int, the copy goes
  -- over them: `msg_len` bytes from the header of the message that came, which is all of it.
  unfoldable pub ssd_send_ssa_conf : ℕ → Msg → Ssd → Ssd
  ssd_send_ssa_conf msgid m s =
      let out =
        if ltb 0 (msg_len m) && ltb (msg_len m) (2 ^ 31) then m else message msgid nothing in
      if card.alloc then record s { to_ssa = s.to_ssa ++ (out ∷ []) } else s

  -- The handlers of commands.
  unfoldable pub ssd_add_static_func : Msg → Ssd → Option Ssd
  ssd_add_static_func m s = elim m.msg [
    | static_mac a ↦ some (
        ssd_send_ssa_conf msgid_clear_vlan_mac
          (record m { msg = static_mac (record a { port_id = card.ce2fe a.port_id }) }) s)
    | _ ↦ none
  ]

  unfoldable pub ssd_clear_dyn_func : Msg → Ssd → Option Ssd
  ssd_clear_dyn_func m s = some (ssd_send_ssa_conf msgid_mac_clear_dyn m s)

  unfoldable pub ssd_clear_vlan_func : Msg → Ssd → Option Ssd
  ssd_clear_vlan_func m s = some (ssd_send_ssa_conf msgid_clear_vlan_mac m s)

  unfoldable pub ssd_clear_inter_func : Msg → Ssd → Option Ssd
  ssd_clear_inter_func m s = elim m.msg [
    | int_arg port ↦
        some
          (ssd_send_ssa_conf msgid_clear_inter_dyn (record m { msg = int_arg (card.ce2fe port) }) s)
    | _ ↦ none
  ]

  unfoldable pub ssd_modify_age_time : Msg → Ssd → Option Ssd
  ssd_modify_age_time m s = some (ssd_send_ssa_conf msgid_mac_agetime m s)

  -- `for (i = 1; i < PORT_NUM + 1; i++)`
  unfoldable pub learn_ports : LearnSta → LearnSta
  learn_ports t = record t {
    port_id = fill port_num 1 (λ i. card.ce2fe (get_or t.port_id i 0)) t.port_id;
  }

  unfoldable pub ssd_modify_inter_lean_sta : Msg → Ssd → Option Ssd
  ssd_modify_inter_lean_sta m s = elim m.msg [
    | learn_sta t ↦
        some
          (ssd_send_ssa_conf msgid_mac_inter_learn (record m { msg = learn_sta (learn_ports t) }) s)
    | _ ↦ none
  ]

  -- `ssd_mac_func`, as `ssd_mac_func_init` sets the array.
  abbrev pub ssd_mac_func : ℕ → Msg → Ssd → Option Ssd
  ssd_mac_func msgid m s =
      if msgid == msgid_mac_add_addr
      then ssd_add_static_func m s
      else if msgid == msgid_mac_clear_dyn
      then ssd_clear_dyn_func m s
      else if msgid == msgid_clear_vlan_mac
      then ssd_clear_vlan_func m s
      else if msgid == msgid_clear_inter_dyn
      then ssd_clear_inter_func m s
      else if msgid == msgid_mac_inter_learn
      then ssd_modify_inter_lean_sta m s
      else if msgid == msgid_mac_agetime
      then ssd_modify_age_time m s
      else none

  unfoldable pub ssd_mac_recv_ssc_command : Msg → Ssd → Option Ssd
  ssd_mac_recv_ssc_command m s = ssd_mac_func m.msg_type m s
