-- ===== src/Pi/Invariant.antt =====
-- The database of the management process stays in order: its tables, its counts and its ports.
use pi_ssc_ssd_ssa.Common.{
  ℕ, ◌+◌, ◌%◌, ◌≡◌, ◌∙◌, Bool, true, false, Option, some, arith, ◌==◌, length-fill, get_or,
  if◌then◌else◌, if_both, Ensures, Ensures-some,
}
use pi_ssc_ssd_ssa.Public.{Entry, port_num, u32_mod}
use pi_ssc_ssd_ssa.Public.Message.{
  DsInfo, ds_conf, ds_static, ds_dyn, ds_other, Payload, int_arg, text, static_mac, mac_entry,
  ds_info, Msg, msgid_mac_add_addr, msgid_mac_clear_dyn, msgid_clear_vlan_mac,
  msgid_clear_inter_dyn, msgid_mac_inter_learn, msgid_mac_agetime, msgid_start, msgid_ing,
  msgid_end, msgid_mac_addr_notify, msgid_mac_fetch,
}
use pi_ssc_ssd_ssa.Hlist.{Hlist}
use pi_ssc_ssd_ssa.Table.Insert.{insert_hash_table-Inserted}
use pi_ssc_ssd_ssa.Table.Delete.{del_hash_entry-Unlinked}
use pi_ssc_ssd_ssa.Pi.Db.{Env, Db, IsDb, inc32, dec32, inc32-mod, dec32-mod}
use pi_ssc_ssd_ssa.Pi.Local.{
  add_static, add_dyn, pi_local_set_static_addr, pi_local_set_agetime, clear_local_mac,
  set_static_addr_of, learn_sta_of, set_agetime_of, pi_update_local_db, clear_dyn_mac,
  clear_vlan_mac, clear_inter_mac,
}
use pi_ssc_ssd_ssa.Pi.Clear.{call_clear_local_mac-Cleared}
use pi_ssc_ssd_ssa.Pi.Ports.{pi_local_learn_sta-IsDb}
use pi_ssc_ssd_ssa.Pi.Handlers.{
  Pi, pi_add_local_dyn, pi_del_local_dyn, pi_deal_notify_msg, deal_conf_info, deal_static_info,
  deal_dyn_info, pi_deal_ds_ing, pi_to_ssc_conf, notify_of, ds_ing_of, deal_msg,
}

-- A count that follows an insertion, or a deletion.
count_up :
    (n m c : ℕ) (old : Bool)
    → c ≡ n % u32_mod
    → m ≡ n + (if old then 0 else 1)
    → (if old then c else inc32 c) ≡ m % u32_mod
count_up n m c true p q = omega arith
count_up n m c false p q = rw (p, q) (inc32-mod n)

count_down :
    (n m c : ℕ) (gone : Bool)
    → c ≡ n % u32_mod
    → m + (if gone then 1 else 0) ≡ n
    → (if gone then dec32 c else c) ≡ m % u32_mod
count_down n m c true p q = rw (p, ← q) (dec32-mod m)
count_down n m c false p q = omega arith

module _ (H : Hlist Entry) where
  pub add_static-IsDb :
      (env : Env) (e : Entry) (db : Db H) → IsDb H db → IsDb H (add_static H env e db)
  unfolding add_static
  add_static-IsDb env e db v =
      let s = insert_hash_table-Inserted H env.junk e db.static_tbl v.static_table in
      record {
        static_table = s.table;
        dyn_table = v.dyn_table;
        static_count = count_up _ _ _ _ v.static_count s.size;
        dyn_count = v.dyn_count;
        ports = v.ports;
      }

  pub add_dyn-IsDb : (env : Env) (e : Entry) (db : Db H) → IsDb H db → IsDb H (add_dyn H env e db)
  unfolding add_dyn
  add_dyn-IsDb env e db v =
      let s = insert_hash_table-Inserted H env.junk e db.dyn_tbl v.dyn_table in
      record {
        static_table = v.static_table;
        dyn_table = s.table;
        static_count = v.static_count;
        dyn_count = count_up _ _ _ _ v.dyn_count s.size;
        ports = v.ports;
      }

  pi_del_local_dyn-IsDb :
      (env : Env) (e : Entry) (db : Db H) → IsDb H db → IsDb H (pi_del_local_dyn H env e db)
  unfolding pi_del_local_dyn
  pi_del_local_dyn-IsDb env e db v =
      let s = del_hash_entry-Unlinked H env.junk e db.dyn_tbl v.dyn_table in
      record {
        static_table = v.static_table;
        dyn_table = s.table;
        static_count = v.static_count;
        dyn_count = count_down _ _ _ _ v.dyn_count s.size;
        ports = v.ports;
      }

  pi_add_local_dyn-IsDb :
      (env : Env) (e : Entry) (db : Db H) → IsDb H db → IsDb H (pi_add_local_dyn H env e db)
  unfolding pi_add_local_dyn
  pi_add_local_dyn-IsDb env e db v = if_both (IsDb H) env.mem _ _ (add_dyn-IsDb env e db v) v

  pub pi_deal_notify_msg-IsDb :
      (env : Env) (e : Entry) (db : Db H) → IsDb H db → IsDb H (pi_deal_notify_msg H env e db)
  unfolding pi_deal_notify_msg
  pi_deal_notify_msg-IsDb env e db v =
      if_both (IsDb H) (e.flags == 0) _ _ (pi_del_local_dyn-IsDb env e db v)
        (pi_add_local_dyn-IsDb env e db v)

  pub pi_deal_ds_ing-IsDb :
      (env : Env) (d : DsInfo) (db : Db H) → IsDb H db → IsDb H (pi_deal_ds_ing H env d db)
  unfolding pi_deal_ds_ing deal_conf_info deal_static_info deal_dyn_info
  pi_deal_ds_ing-IsDb env (ds_conf c) db v = record {
    static_table = v.static_table;
    dyn_table = v.dyn_table;
    static_count = v.static_count;
    dyn_count = v.dyn_count;
    ports = length-fill port_num 0 (λ i. get_or c.port_status i 0) db.port_status ∙ v.ports;
  }
  pi_deal_ds_ing-IsDb env (ds_static e) db v =
      if_both (IsDb H) env.mem _ _ (add_static-IsDb env _ db v) v
  pi_deal_ds_ing-IsDb env (ds_dyn e) db v = pi_add_local_dyn-IsDb env e db v
  pi_deal_ds_ing-IsDb env (ds_other t) db v = v

  notify_of-IsDb :
      (env : Env) (p : Payload) (s : Pi H)
      → IsDb H s.db
      → Ensures (λ r. IsDb H r.db) (notify_of H env p s)
  unfolding notify_of
  notify_of-IsDb env (mac_entry e) s v = pi_deal_notify_msg-IsDb env e s.db v
  notify_of-IsDb env p s v = tt

  ds_ing_of-IsDb :
      (env : Env) (p : Payload) (s : Pi H)
      → IsDb H s.db
      → Ensures (λ r. IsDb H r.db) (ds_ing_of H env p s)
  unfolding ds_ing_of
  ds_ing_of-IsDb env (ds_info d) s v = pi_deal_ds_ing-IsDb env d s.db v
  ds_ing_of-IsDb env p s v = tt

  -- Every message that the loop handles keeps the database in order.
  pub deal_msg-IsDb :
      (env : Env) (create : Bool) (m : Msg) (s s' : Pi H)
      → IsDb H s.db
      → deal_msg H env create m s ≡ some s'
      → IsDb H s'.db
  unfolding deal_msg pi_to_ssc_conf
  deal_msg-IsDb env create m s s' v h =
      let Q : Option (Pi H) → Type 0 = Ensures (λ r. IsDb H r.db) in
      let last =
        if_both Q (m.msg_type == msgid_mac_addr_notify) _ _ (notify_of-IsDb env m.msg s v) v in
      let four = if_both Q (m.msg_type == msgid_end) _ _ v last in
      let three = if_both Q (m.msg_type == msgid_ing) _ _ (ds_ing_of-IsDb env m.msg s v) four in
      let two = if_both Q (m.msg_type == msgid_start) _ _ v three in
      let P : Pi H → Type 0 = λ r. IsDb H r.db in
      let fetched = if_both P create _ _ v v in
      Ensures-some (λ r. IsDb H r.db) _ s'
        (if_both Q (m.msg_type == msgid_mac_fetch) _ _ fetched two) h

  clear_local_mac-IsDb :
      (type : ℕ) (p : Payload) (db : Db H)
      → IsDb H db
      → Ensures (IsDb H) (clear_local_mac H type p db)
  unfolding clear_local_mac
  clear_local_mac-IsDb type (int_arg n) db v =
      let cleared = λ (f : Entry → Bool). (call_clear_local_mac-Cleared H type f db v).valid in
      let Q : Option (Db H) → Type 0 = Ensures (IsDb H) in
      if_both Q (type == msgid_mac_clear_dyn) _ _ (cleared clear_dyn_mac) (
        if_both Q (type == msgid_clear_vlan_mac) _ _ (cleared (clear_vlan_mac n))
          (if_both Q (type == msgid_clear_inter_dyn) _ _ (cleared (clear_inter_mac n)) v))
  clear_local_mac-IsDb type p db v =
      let Q : Option (Db H) → Type 0 = Ensures (IsDb H) in
      if_both Q (type == msgid_mac_clear_dyn) _ _
        (call_clear_local_mac-Cleared H type clear_dyn_mac db v).valid
        (if_both Q (type == msgid_clear_vlan_mac) _ _ tt
          (if_both Q (type == msgid_clear_inter_dyn) _ _ tt v))

  set_static_addr_of-IsDb :
      (env : Env) (p : Payload) (db : Db H)
      → IsDb H db
      → Ensures (IsDb H) (set_static_addr_of H env p db)
  unfolding set_static_addr_of pi_local_set_static_addr
  set_static_addr_of-IsDb env (static_mac m) db v =
      if_both (IsDb H) env.mem _ _ (add_static-IsDb env _ db v) v
  set_static_addr_of-IsDb env p db v = tt

  learn_sta_of-IsDb : (p : Payload) (db : Db H) → IsDb H db → Ensures (IsDb H) (learn_sta_of H p db)
  unfolding learn_sta_of
  learn_sta_of-IsDb (text str) db v = pi_local_learn_sta-IsDb H str db v
  learn_sta_of-IsDb p db v = tt

  set_agetime_of-IsDb :
      (p : Payload) (db : Db H) → IsDb H db → Ensures (IsDb H) (set_agetime_of H p db)
  unfolding set_agetime_of pi_local_set_agetime
  set_agetime_of-IsDb (int_arg n) db v = record {
    static_table = v.static_table;
    dyn_table = v.dyn_table;
    static_count = v.static_count;
    dyn_count = v.dyn_count;
    ports = v.ports;
  }
  set_agetime_of-IsDb p db v = tt

  -- Every operation that the commands call on the local database keeps it in order.
  pub pi_update_local_db-IsDb :
      (env : Env) (type : ℕ) (p : Payload) (db db' : Db H)
      → IsDb H db
      → pi_update_local_db H env type p db ≡ some db'
      → IsDb H db'
  unfolding pi_update_local_db
  pi_update_local_db-IsDb env type p db db' v h =
      let Q : Option (Db H) → Type 0 = Ensures (IsDb H) in
      let age = if_both Q (type == msgid_mac_agetime) _ _ (set_agetime_of-IsDb p db v) tt in
      let learn = if_both Q (type == msgid_mac_inter_learn) _ _ (learn_sta_of-IsDb p db v) age in
      let clear = clear_local_mac-IsDb type p db v in
      let inter = if_both Q (type == msgid_clear_inter_dyn) _ _ clear learn in
      let vlan = if_both Q (type == msgid_clear_vlan_mac) _ _ clear inter in
      let dyn = if_both Q (type == msgid_mac_clear_dyn) _ _ clear vlan in
      Ensures-some (IsDb H) _ db'
        (if_both Q (type == msgid_mac_add_addr) _ _ (set_static_addr_of-IsDb env p db v) dyn) h
