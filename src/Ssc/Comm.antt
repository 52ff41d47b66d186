-- ===== src/Ssc/Comm.antt =====
-- ssc/ssc_comm_pi.c: what the SSC does with the messages of the management process and of the line
-- cards (SSD), what it sends to both, and the synchronisation of its database. A handler that would
-- wait for ever has no result, nor has one whose message does not hold the structure it reads.
use pi_ssc_ssd_ssa.Common.{
  ◌>>=◌, ℕ, ◌+◌, ◌-◌, Bool, true, false, Option, none, some, List, [], ◌∷◌, ◌++◌, ◌==◌, get_or,
  fill, replicate, if◌then◌else◌,
}
use pi_ssc_ssd_ssa.Public.{Entry, port_num}
use pi_ssc_ssd_ssa.Public.Message.{
  LearnSta, Payload, nothing, int_arg, static_mac, mac_entry, conf_info, learn_sta, Msg, message,
  msgid_mac_add_addr, msgid_mac_clear_dyn, msgid_clear_vlan_mac, msgid_clear_inter_dyn,
  msgid_mac_inter_learn, msgid_mac_agetime, msgid_start, msgid_ing, msgid_end,
  msgid_mac_addr_notify,
}
use pi_ssc_ssd_ssa.Hlist.{Hlist}
use pi_ssc_ssd_ssa.Pi.Db.{Env}
use pi_ssc_ssd_ssa.Ssc.Db.{
  SscDb, lock, unlock, ssc_add_dyn_addr, ssc_local_add_addr, ssc_del_dyn_addr, ssc_del_age_entry,
  ssc_del_vlan_addr, ssc_del_int_addr,
}

-- The platform: what `ss_comm_ifx_db_get_phyid` and `ss_comm_get_phyid_user_ifx` leave in the
-- variable they are given, for a port, whether `ss_info_alloc_init` gives a message, and whether
-- `pthread_create` gives a thread.
pub record Platform : Type 0 where
  pub phyid : ℕ → ℕ
  pub user_ifx : ℕ → ℕ
  pub alloc : Bool
  pub create : Bool

module _ (H : Hlist Entry) where
  -- The database, the flag `ds_is_end`, how many threads of `ssc_deal_ds` wait for it, and what was
  -- sent to the line cards and written to the socket of the management process, the oldest first.
  pub record Ssc : Type 0 where
    pub db : SscDb H
    pub ds_is_end : Bool
    pub waiting : ℕ
    pub to_ssd : List Msg
    pub to_pi : List Msg

module _ (H : Hlist Entry) (env : Env) where
  unfoldable pub ssc_send_msg_pi : ℕ → Payload → Ssc H → Ssc H
  ssc_send_msg_pi msg_type body s =
      if env.mem then record s { to_pi = s.to_pi ++ (message msg_type body ∷ []) } else s

module _ (H : Hlist Entry) (env : Env) (platform : Platform) where
  unfoldable pub ssc_send_ssd_conf : ℕ → Payload → Ssc H → Ssc H
  ssc_send_ssd_conf msgid body s =
      if platform.alloc then record s { to_ssd = s.to_ssd ++ (message msgid body ∷ []) } else s

  -- The rest of a handler: a call on the database.
  unfoldable pub on_db : (SscDb H → Option (SscDb H)) → Ssc H → Option (Ssc H)
  on_db f s = f s.db >>= (λ db. some (record s { db = db }))

  -- The handler writes the converted port into the message, then sends and stores that.
  unfoldable pub ssc_add_static_func : Payload → Ssc H → Option (Ssc H)
  ssc_add_static_func (static_mac m) s =
      let m' = record m { port_id = platform.phyid m.port_id } in
      on_db (ssc_local_add_addr H env m') (ssc_send_ssd_conf msgid_mac_add_addr (static_mac m') s)
  ssc_add_static_func p s = none

  unfoldable pub ssc_clear_dyn_func : Payload → Ssc H → Option (Ssc H)
  ssc_clear_dyn_func p s =
      on_db (ssc_del_dyn_addr H) (ssc_send_ssd_conf msgid_mac_clear_dyn nothing s)

  unfoldable pub ssc_clear_vlan_func : Payload → Ssc H → Option (Ssc H)
  ssc_clear_vlan_func (int_arg vlan_id) s =
      on_db (ssc_del_vlan_addr H vlan_id)
        (ssc_send_ssd_conf msgid_clear_vlan_mac (int_arg vlan_id) s)
  ssc_clear_vlan_func p s = none

  unfoldable pub ssc_clear_inter_func : Payload → Ssc H → Option (Ssc H)
  ssc_clear_inter_func (int_arg port_id) s =
      let phy_id = platform.phyid port_id in
      on_db (ssc_del_int_addr H phy_id) (ssc_send_ssd_conf msgid_clear_inter_dyn (int_arg phy_id) s)
  ssc_clear_inter_func p s = none

  -- Three handlers write to the database between taking its mutex and giving it back.
  unfoldable pub locked_write : (SscDb H → SscDb H) → SscDb H → Option (SscDb H)
  locked_write f db = do d ← lock H db; some (unlock H (f d))

  unfoldable pub ssc_modify_age_time : Payload → Ssc H → Option (Ssc H)
  ssc_modify_age_time (int_arg seconds) s =
      on_db (locked_write (λ d. record d { age_time = seconds }))
        (ssc_send_ssd_conf msgid_mac_agetime (int_arg seconds) s)
  ssc_modify_age_time p s = none

  -- Place 0 of the array in `tmp` is not set.
  unfoldable pub ssc_modify_inter_lean_sta : Payload → Ssc H → Option (Ssc H)
  ssc_modify_inter_lean_sta (int_arg status) s =
      let tmp : LearnSta = record {
        port_id = fill port_num 1 platform.phyid (replicate (port_num + 1) env.junk);
        status = status;
      } in
      on_db
        (locked_write
          (λ d. record d { port_status = fill (port_num + 1) 0 (λ i. status) d.port_status }))
        (ssc_send_ssd_conf msgid_mac_inter_learn (learn_sta tmp) s)
  ssc_modify_inter_lean_sta p s = none

  unfoldable pub ssc_rece_pi_ds_start : Payload → Ssc H → Option (Ssc H)
  ssc_rece_pi_ds_start p s = some (record s {
    ds_is_end = false;
    waiting = if platform.create then s.waiting + 1 else s.waiting;
  })

  -- One look of a thread at the flag: it ends, or sleeps on.
  unfoldable pub ssc_deal_ds : Ssc H → Ssc H
  ssc_deal_ds s = if s.ds_is_end then record s { waiting = s.waiting - 1 } else s

  -- `for (i = 1; i < PORT_NUM; i++)`
  unfoldable pub ssc_rece_pi_ds_data : Payload → Ssc H → Option (Ssc H)
  ssc_rece_pi_ds_data (conf_info c) s =
      on_db
        (locked_write (λ d. record d {
          age_time = c.age_time;
          port_status = fill (port_num - 1) 1 (λ i. get_or c.port_status i 0) d.port_status;
        }))
        s
  ssc_rece_pi_ds_data p s = none

  unfoldable pub ssc_rece_pi_ds_end : Payload → Ssc H → Option (Ssc H)
  ssc_rece_pi_ds_end p s = some (record s { ds_is_end = true })

  -- `ssc_mac_func`, as `ssc_mac_opera_init` sets the array; a type past its end has no result.
  abbrev pub ssc_mac_func : ℕ → Payload → Ssc H → Option (Ssc H)
  ssc_mac_func msg_type p s =
      if msg_type == msgid_mac_add_addr
      then ssc_add_static_func p s
      else if msg_type == msgid_mac_clear_dyn
      then ssc_clear_dyn_func p s
      else if msg_type == msgid_clear_vlan_mac
      then ssc_clear_vlan_func p s
      else if msg_type == msgid_clear_inter_dyn
      then ssc_clear_inter_func p s
      else if msg_type == msgid_mac_inter_learn
      then ssc_modify_inter_lean_sta p s
      else if msg_type == msgid_mac_agetime
      then ssc_modify_age_time p s
      else if msg_type == msgid_start
      then ssc_rece_pi_ds_start p s
      else if msg_type == msgid_ing
      then ssc_rece_pi_ds_data p s
      else if msg_type == msgid_end
      then ssc_rece_pi_ds_end p s
      else none

  unfoldable pub ssc_recevie_msg_pi : Msg → Ssc H → Option (Ssc H)
  ssc_recevie_msg_pi m s = ssc_mac_func m.msg_type m.msg s

  abbrev pub ssc_add_dyn_func : Entry → Ssc H → Option (Ssc H)
  ssc_add_dyn_func e s = on_db (ssc_add_dyn_addr H env e) s

  abbrev pub ssc_del_age_time_mac : Entry → Ssc H → Option (Ssc H)
  ssc_del_age_time_mac e s = on_db (ssc_del_age_entry H env e) s

  -- A notice of the line cards goes to the management process with the port that its users see, and
  -- into the database with that port too.
  unfoldable pub ssc_mac_update_recv : Payload → Ssc H → Option (Ssc H)
  ssc_mac_update_recv (mac_entry e) s =
      let e' = record e { port_id = platform.user_ifx e.port_id } in
      let s' = ssc_send_msg_pi H env msgid_mac_addr_notify (mac_entry e') s in
      if e.flags == 0 then ssc_del_age_time_mac e' s' else ssc_add_dyn_func e' s'
  ssc_mac_update_recv p s = none
