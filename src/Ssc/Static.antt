-- ===== src/Ssc/Static.antt =====
-- The command that adds a static address, in the SSC.
use pi_ssc_ssd_ssa.Common.{◌≡◌, refl, ◌∙◌, true, false, Option, none, some}
use pi_ssc_ssd_ssa.Public.{Entry, StaticMac}
use pi_ssc_ssd_ssa.Public.Compare.{memcmp_key, memcmp_key_iff}
use pi_ssc_ssd_ssa.Public.Message.{message, static_mac, msgid_mac_add_addr}
use pi_ssc_ssd_ssa.Hlist.{Hlist}
use pi_ssc_ssd_ssa.Table.{entries, insert_hash_table}
use pi_ssc_ssd_ssa.Table.Chain.{lookup, merge}
use pi_ssc_ssd_ssa.Table.Insert.{insert_hash_table-Inserted}
use pi_ssc_ssd_ssa.Pi.Db.{Env}
use pi_ssc_ssd_ssa.Ssc.Db.{SscDb, ssc_static_entry, static_key, ssc_local_add_addr}
use pi_ssc_ssd_ssa.Ssc.Store.{ssc_local_add_addr-insert}
use pi_ssc_ssd_ssa.Ssc.Comm.{
  Platform, Ssc, ssc_send_ssd_conf, ssc_recevie_msg_pi, ssc_add_static_func,
}
use pi_ssc_ssd_ssa.Ssc.Remove.{after_send}
use pi_ssc_ssd_ssa.Ssc.Invariant.{IsSscDb}

pub merge-port : (e : Entry) (o : Option Entry) → (merge e o).port_id ≡ e.port_id
merge-port e none = refl
merge-port e (some a) = refl

module _ (H : Hlist Entry) where
  -- With the mutex free and memory, the message that adds a static address puts it into the table, with
  -- its port converted, and what goes to the line cards is the message with that port.
  pub stored :
      (env : Env) (platform : Platform) (a : StaticMac) (s : Ssc H)
      → env.mem ≡ true
      → IsSscDb H s.db
      → let a' = record a { port_id = platform.phyid a.port_id } in
        (s' : Ssc H) × (e : Entry) × (ssc_recevie_msg_pi H env platform
            (message msgid_mac_add_addr (static_mac a))
            s
          ≡ some s')
        × (lookup (static_key a') (entries H s'.db.static_tbl) ≡ some e)
        × (e.port_id ≡ platform.phyid a.port_id)
        × (s'.to_ssd
            ≡ (ssc_send_ssd_conf H env platform msgid_mac_add_addr (static_mac a') s).to_ssd)
        × IsSscDb H s'.db
  unfolding ssc_recevie_msg_pi ssc_add_static_func
  stored env platform a s mem v =
      let a' = record a { port_id = platform.phyid a.port_id } in
      let e = ssc_static_entry a' in
      let t = insert_hash_table H env.junk e s.db.static_tbl in
      let ins = insert_hash_table-Inserted H env.junk e s.db.static_tbl v.static_table in
      let db : SscDb H = record s.db { static_tbl = t.0; locked = false } in
      let same : memcmp_key (static_key a') e ≡ true = (memcmp_key_iff (static_key a') e).1 refl in
      let old = lookup (static_key a') (entries H s.db.static_tbl) in
      (
        record (ssc_send_ssd_conf H env platform msgid_mac_add_addr (static_mac a') s) { db = db },
        merge e old,
        after_send H env platform msgid_mac_add_addr (static_mac a') (ssc_local_add_addr H env a') s
            db (ssc_local_add_addr-insert H env a' s.db v.free mem),
        ins.reads (static_key a') ∙ rw same refl,
        merge-port e old,
        refl,
        record { static_table = ins.table; dyn_table = v.dyn_table; free = refl },
      )
