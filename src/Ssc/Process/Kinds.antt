-- ===== src/Ssc/Process/Kinds.antt =====
-- The messages that the SSC can handle, by their types and what stands behind the header.
use pi_ssc_ssd_ssa.Common.{ℕ, Bool, true, false, ◌==◌, if◌then◌else◌}
use pi_ssc_ssd_ssa.Public.Message.{
  Payload, msgid_mac_add_addr, msgid_mac_clear_dyn, msgid_clear_vlan_mac, msgid_clear_inter_dyn,
  msgid_mac_inter_learn, msgid_mac_agetime, msgid_start, msgid_ing, msgid_end,
}
use pi_ssc_ssd_ssa.Public.Kinds.{is_static_mac, is_int, is_conf}

-- A type that the SSC knows, with the structure that goes with it.
unfoldable pub well_formed : ℕ → Payload → Bool
well_formed type p =
    if type == msgid_mac_add_addr
    then is_static_mac p
    else if type == msgid_mac_clear_dyn
    then true
    else if type == msgid_clear_vlan_mac
    then is_int p
    else if type == msgid_clear_inter_dyn
    then is_int p
    else if type == msgid_mac_inter_learn
    then is_int p
    else if type == msgid_mac_agetime
    then is_int p
    else if type == msgid_start
    then true
    else if type == msgid_ing
    then is_conf p
    else if type == msgid_end
    then true
    else false
