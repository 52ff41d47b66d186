-- ===== src/Pi/Handlers.antt =====
-- pi_comm_ssc.c: what the management process does with a message from the SSC, and the threads that
-- it starts.
use pi_ssc_ssd_ssa.Common.{
  ℕ, ◌+◌, Bool, Option, none, some, List, [], ◌∷◌, ◌==◌, get_or, fill, replicate, if◌then◌else◌,
}
use pi_ssc_ssd_ssa.Public.{Entry, memset_zero, port_num}
use pi_ssc_ssd_ssa.Public.Message.{
  ConfInfo, DsInfo, ds_conf, ds_static, ds_dyn, ds_other, Payload, nothing, mac_entry, conf_info,
  ds_info, Msg, message, msgid_start, msgid_ing, msgid_end, msgid_mac_addr_notify, msgid_mac_fetch,
}
use pi_ssc_ssd_ssa.Hlist.{Hlist}
use pi_ssc_ssd_ssa.Table.{del_hash_entry}
use pi_ssc_ssd_ssa.Pi.Db.{Env, Db, dec32}
use pi_ssc_ssd_ssa.Pi.Local.{add_static, add_dyn}

module _ (H : Hlist Entry) where
  -- The copy of `data` is inserted.
  unfoldable pub pi_add_local_dyn : Env → Entry → Db H → Db H
  pi_add_local_dyn env data_entry db = if env.mem then add_dyn H env data_entry db else db

  unfoldable pub pi_del_local_dyn : Env → Entry → Db H → Db H
  pi_del_local_dyn env data_entry db =
      let (t, gone) = del_hash_entry H env.junk data_entry db.dyn_tbl in
      record db {
        dyn_tbl = t;
        dyn_addr_count = if gone then dec32 db.dyn_addr_count else db.dyn_addr_count;
      }

  unfoldable pub pi_deal_notify_msg : Env → Entry → Db H → Db H
  pi_deal_notify_msg env data_entry db =
      if data_entry.flags == 0
      then pi_del_local_dyn env data_entry db
      else pi_add_local_dyn env data_entry db

  -- `for (i = 0; i < PORT_NUM; i++)`
  unfoldable pub deal_conf_info : ConfInfo → Db H → Db H
  deal_conf_info c db = record db {
    age_time = c.age_time;
    port_status = fill port_num 0 (λ i. get_or c.port_status i 0) db.port_status;
  }

  -- `memset` clears `tmp`, which points into the message, before `tmp` is copied to `entry`.
  unfoldable pub deal_static_info : Env → Entry → Db H → Db H
  deal_static_info env tmp db =
      if env.mem then (let entry = memset_zero tmp in add_static H env entry db) else db

  unfoldable pub deal_dyn_info : Env → Entry → Db H → Db H
  deal_dyn_info env entry db = pi_add_local_dyn env entry db

  unfoldable pub pi_deal_ds_ing : Env → DsInfo → Db H → Db H
  pi_deal_ds_ing env (ds_conf c) db = deal_conf_info c db
  pi_deal_ds_ing env (ds_static e) db = deal_static_info env e db
  pi_deal_ds_ing env (ds_dyn e) db = deal_dyn_info env e db
  pi_deal_ds_ing env (ds_other type) db = db

  -- The database, and how many threads were started to send the configuration to the SSC.
  pub record Pi : Type 0 where
    pub db : Db H
    pub threads : ℕ

  -- `create` tells whether `pthread_create` succeeds.
  unfoldable pub pi_to_ssc_conf : Bool → Pi → Pi
  pi_to_ssc_conf create s = if create then record s { threads = s.threads + 1 } else s

  -- `pthread_ds_fun`, the thread: the messages that it sends, in order. Place 0 of the array in
  -- `tmp` is not set: `junk`. It reads the database without the mutex, in one step here; Pi.Race has
  -- its reads one by one.
  unfoldable pub pthread_ds_fun : ℕ → Db H → List Msg
  pthread_ds_fun junk db =
      message msgid_start nothing
      ∷ message msgid_ing (
          conf_info (record {
            age_time = db.age_time;
            port_status =
                fill port_num 1 (λ i. get_or db.port_status i 0) (replicate (port_num + 1) junk);
          }))
      ∷ message msgid_end nothing
      ∷ []

  unfoldable pub notify_of : Env → Payload → Pi → Option Pi
  notify_of env (mac_entry e) s = some (record s { db = pi_deal_notify_msg env e s.db })
  notify_of env p s = none

  unfoldable pub ds_ing_of : Env → Payload → Pi → Option Pi
  ds_ing_of env (ds_info d) s = some (record s { db = pi_deal_ds_ing env d s.db })
  ds_ing_of env p s = none

  -- The `switch` of `deal_info_func`; `none` where the body of the message is not the structure that
  -- its handler reads.
  unfoldable pub deal_msg : Env → Bool → Msg → Pi → Option Pi
  deal_msg env create m s =
      if m.msg_type == msgid_mac_fetch
      then some (pi_to_ssc_conf create s)
      else if m.msg_type == msgid_start
      then some s
      else if m.msg_type == msgid_ing
      then ds_ing_of env m.msg s
      else if m.msg_type == msgid_end
      then some s
      else if m.msg_type == msgid_mac_addr_notify
      then notify_of env m.msg s
      else some s
