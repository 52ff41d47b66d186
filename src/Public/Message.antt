-- ===== src/Public/Message.antt =====
-- ss_public.h: the messages. A message is its type and what stands behind the header, read as the
-- structure that its sender wrote there.
use pi_ssc_ssd_ssa.Common.{ℕ, ◌+◌, List, length}
use pi_ssc_ssd_ssa.Public.{Entry, StaticMac}

-- `pi_mac_msgid_t`, `ssc_mac_msgid_t` and `ssd_mac_msgid_t`: the three agree on 0 to 8.
abbrev pub msgid_mac_add_addr : ℕ
msgid_mac_add_addr = 0

abbrev pub msgid_mac_clear_dyn : ℕ
msgid_mac_clear_dyn = 1

abbrev pub msgid_clear_vlan_mac : ℕ
msgid_clear_vlan_mac = 2

abbrev pub msgid_clear_inter_dyn : ℕ
msgid_clear_inter_dyn = 3

abbrev pub msgid_mac_inter_learn : ℕ
msgid_mac_inter_learn = 4

abbrev pub msgid_mac_agetime : ℕ
msgid_mac_agetime = 5

-- PI_MSGID_DS_START, ING, END and SSC_MSGID_MAC_UP_START, ING, END
abbrev pub msgid_start : ℕ
msgid_start = 6

abbrev pub msgid_ing : ℕ
msgid_ing = 7

abbrev pub msgid_end : ℕ
msgid_end = 8

abbrev pub msgid_mac_addr_notify : ℕ
msgid_mac_addr_notify = 9

abbrev pub msgid_mac_fetch : ℕ
msgid_mac_fetch = 10

-- `port_status_t`
abbrev pub mac_fwd_learn : ℕ
mac_fwd_learn = 3

abbrev pub mac_unfwd_unlearn : ℕ
mac_unfwd_unlearn = 0

-- `conf_info_t`
pub record ConfInfo : Type 0 where
  pub age_time : ℕ
  pub port_status : List ℕ

-- `inter_learn_sta_t`
pub record LearnSta : Type 0 where
  pub port_id : List ℕ
  pub status : ℕ

-- `ssc_ds_info_t`: a type and a context. `ds_other` is a type that is none of the three.
pub data DsInfo : Type 0 where
  ds_conf : ConfInfo → DsInfo
  ds_static : Entry → DsInfo
  ds_dyn : Entry → DsInfo
  ds_other : ℕ → DsInfo

pub data Payload : Type 0 where
  nothing : Payload
  int_arg : ℕ → Payload
  text : List ℕ → Payload
  static_mac : StaticMac → Payload
  mac_entry : Entry → Payload
  conf_info : ConfInfo → Payload
  learn_sta : LearnSta → Payload
  ds_info : DsInfo → Payload

-- `msg_info_t`
pub record Msg : Type 0 where
  pub msg_type : ℕ
  pub msg : Payload

abbrev pub message : ℕ → Payload → Msg
message t p = record { msg_type = t; msg = p }

-- How many bytes a sender writes behind the header: `sizeof` of the structure, with an int of four
-- bytes, a pointer of eight, and each field at a multiple of its size.
abbrev pub sizeof_ds : DsInfo → ℕ
sizeof_ds (ds_conf c) = 4 + 104
sizeof_ds (ds_static e) = 4 + 40
sizeof_ds (ds_dyn e) = 4 + 40
sizeof_ds (ds_other type) = 4

abbrev pub sizeof : Payload → ℕ
sizeof nothing = 0
sizeof (int_arg n) = 4
sizeof (text str) = length str
sizeof (static_mac m) = 16
sizeof (mac_entry e) = 40
sizeof (conf_info c) = 104
sizeof (learn_sta t) = 104
sizeof (ds_info d) = sizeof_ds d

-- `msg_len`, as the senders set it: the header and what stands behind it.
abbrev pub msg_len : Msg → ℕ
msg_len m = 8 + sizeof m.msg
