-- ===== src/Ssc/Sync.antt =====
-- ssc/ssc_comm_pi.c: the thread that sends the database of the SSC to the management process.
use pi_ssc_ssd_ssa.Common.{
  ◌>>=◌, ◌+◌, Option, some, List, [], ◌∷◌, get_or, fill, replicate, if◌then◌else◌,
}
use pi_ssc_ssd_ssa.Public.{Entry, port_num}
use pi_ssc_ssd_ssa.Public.Message.{
  ConfInfo, DsInfo, ds_conf, ds_static, ds_dyn, nothing, ds_info, msgid_start, msgid_ing, msgid_end,
  msgid_mac_fetch,
}
use pi_ssc_ssd_ssa.Hlist.{Hlist}
use pi_ssc_ssd_ssa.Table.{Table}
use pi_ssc_ssd_ssa.Pi.Db.{Env}
use pi_ssc_ssd_ssa.Ssc.Db.{lock, unlock}
use pi_ssc_ssd_ssa.Ssc.Comm.{Ssc, ssc_send_msg_pi}

module _ (H : Hlist Entry) (env : Env) where
  -- The start of a connection.
  unfoldable pub ssc_send_pi_fetch : Ssc H → Ssc H
  ssc_send_pi_fetch s = ssc_send_msg_pi H env msgid_mac_fetch nothing s

  unfoldable pub send_up : DsInfo → Ssc H → Ssc H
  send_up d s = ssc_send_msg_pi H env msgid_ing (ds_info d) s

  -- Place 0 of the array in `conf_info` is not set.
  unfoldable pub ssc_ds_conf_info : Ssc H → Option (Ssc H)
  ssc_ds_conf_info s =
      if env.mem
      then (do
        d ← lock H s.db
        let c : ConfInfo = record {
          age_time = d.age_time;
          port_status =
              fill port_num 1 (λ i. get_or d.port_status i 0) (replicate (port_num + 1) env.junk);
        }
        some (send_up (ds_conf c) (record s { db = unlock H d })))
      else some s

  -- `hlist_for_each`
  unfoldable pub send_chain : (Entry → DsInfo) → List Entry → Ssc H → Ssc H
  send_chain f [] s = s
  send_chain f (e ∷ es) s = send_chain f es (send_up (f e) s)

  -- `for (i = 0; i < HASH_SIZE; i++)`
  unfoldable pub send_table : (Entry → DsInfo) → Table H → Ssc H → Ssc H
  send_table f [] s = s
  send_table f (h ∷ t) s = send_table f t (if H.no_first h then s else send_chain f (H.walk h) s)

  unfoldable pub ssc_ds_static_info : Ssc H → Option (Ssc H)
  ssc_ds_static_info s =
      if env.mem
      then (do
        d ← lock H s.db
        some (record (send_table ds_static d.static_tbl s) { db = unlock H d }))
      else some s

  unfoldable pub ssc_ds_dyn_info : Ssc H → Option (Ssc H)
  ssc_ds_dyn_info s =
      if env.mem
      then (do d ← lock H s.db; some (record (send_table ds_dyn d.dyn_tbl s) { db = unlock H d }))
      else some s

  unfoldable pub ssc_ds_data_pi : Ssc H → Option (Ssc H)
  ssc_ds_data_pi s = do
    s ← ssc_ds_conf_info (ssc_send_msg_pi H env msgid_start nothing s)
    s ← ssc_ds_static_info s
    s ← ssc_ds_dyn_info s
    some (ssc_send_msg_pi H env msgid_end nothing s)
