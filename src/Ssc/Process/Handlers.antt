-- ===== src/Ssc/Process/Handlers.antt =====
-- The handlers of the SSC return, and leave its database in order.
use pi_ssc_ssd_ssa.Common.{
  both_tests, ℕ, ◌-◌, fill, ◌≡◌, refl, inl, inr, true, false, Option, some, [], ◌∷◌, ◌++◌, ◌==◌,
  get_or, Bool-cases,
}
use pi_ssc_ssd_ssa.Public.{Entry, StaticMac, port_num}
use pi_ssc_ssd_ssa.Public.Message.{
  ConfInfo, Payload, nothing, message, msgid_mac_addr_notify, int_arg, static_mac, mac_entry,
  conf_info, Msg, msgid_mac_add_addr, msgid_mac_clear_dyn, msgid_clear_vlan_mac,
  msgid_clear_inter_dyn, msgid_mac_inter_learn, msgid_mac_agetime, msgid_start, msgid_ing,
  msgid_end,
}
use pi_ssc_ssd_ssa.Hlist.{Hlist}
use pi_ssc_ssd_ssa.Pi.Db.{Env}
use pi_ssc_ssd_ssa.Ssc.Db.{SscDb, lock, unlock}
use pi_ssc_ssd_ssa.Ssc.Calls.{del_dyn, add_dyn, local_add, del_age, del_vlan, del_int, ssc_call}
use pi_ssc_ssd_ssa.Ssc.Comm.{
  Platform, Ssc, on_db, locked_write, ssc_send_msg_pi, ssc_send_ssd_conf, ssc_recevie_msg_pi,
  ssc_mac_update_recv, ssc_add_static_func, ssc_clear_dyn_func, ssc_clear_vlan_func,
  ssc_clear_inter_func, ssc_modify_age_time, ssc_modify_inter_lean_sta, ssc_rece_pi_ds_start,
  ssc_rece_pi_ds_data, ssc_rece_pi_ds_end,
}
use pi_ssc_ssd_ssa.Ssc.Invariant.{IsSscDb, ssc_call-IsSscDb}
use pi_ssc_ssd_ssa.Ssc.Remove.{after_send}
use pi_ssc_ssd_ssa.Ssc.Process.Kinds.{well_formed}
use pi_ssc_ssd_ssa.Public.Kinds.{by_static_mac, by_int, by_conf}

module _ (H : Hlist Entry) (env : Env) (platform : Platform) where
  -- There is a result, with the mutex free and the tables in order.
  abbrev pub Returns : Option (Ssc H) → Type 0
  Returns o = (s' : Ssc H) × (o ≡ some s') × IsSscDb H s'.db

  -- A handler that sends, and then calls the database.
  sent-Returns :
      (msgid : ℕ) (body : Payload) (f : SscDb H → Option (SscDb H)) (s : Ssc H)
      → ((db : SscDb H) × (f s.db ≡ some db) × IsSscDb H db)
      → Returns (on_db H env platform f (ssc_send_ssd_conf H env platform msgid body s))
  sent-Returns msgid body f s (db, run, v) = (
    record (ssc_send_ssd_conf H env platform msgid body s) { db = db },
    after_send H env platform msgid body f s db run,
    v,
  )

  write-Returns :
      (f : SscDb H → SscDb H) (db : SscDb H)
      → IsSscDb H db
      → IsSscDb H (unlock H (f (record db { locked = true })))
      → (db' : SscDb H) × (locked_write H env platform f db ≡ some db') × IsSscDb H db'
  unfolding locked_write lock
  write-Returns f db v w = (_, simp v.free, w)

  add_static-Returns :
      (m : StaticMac) (s : Ssc H)
      → env.mem ≡ true
      → IsSscDb H s.db
      → Returns (ssc_add_static_func H env platform (static_mac m) s)
  unfolding ssc_add_static_func ssc_call
  add_static-Returns m s mem v =
      let m' = record m { port_id = platform.phyid m.port_id } in
      sent-Returns msgid_mac_add_addr (static_mac m') _ s
        (ssc_call-IsSscDb H env (local_add m') s.db mem v)

  clear_dyn-Returns :
      (p : Payload) (s : Ssc H)
      → env.mem ≡ true
      → IsSscDb H s.db
      → Returns (ssc_clear_dyn_func H env platform p s)
  unfolding ssc_clear_dyn_func ssc_call
  clear_dyn-Returns p s mem v =
      sent-Returns msgid_mac_clear_dyn nothing _ s (ssc_call-IsSscDb H env del_dyn s.db mem v)

  clear_vlan-Returns :
      (n : ℕ) (s : Ssc H)
      → env.mem ≡ true
      → IsSscDb H s.db
      → Returns (ssc_clear_vlan_func H env platform (int_arg n) s)
  unfolding ssc_clear_vlan_func ssc_call
  clear_vlan-Returns n s mem v =
      sent-Returns msgid_clear_vlan_mac (int_arg n) _ s
        (ssc_call-IsSscDb H env (del_vlan n) s.db mem v)

  clear_inter-Returns :
      (n : ℕ) (s : Ssc H)
      → env.mem ≡ true
      → IsSscDb H s.db
      → Returns (ssc_clear_inter_func H env platform (int_arg n) s)
  unfolding ssc_clear_inter_func ssc_call
  clear_inter-Returns n s mem v =
      let phy_id = platform.phyid n in
      sent-Returns msgid_clear_inter_dyn (int_arg phy_id) _ s
        (ssc_call-IsSscDb H env (del_int phy_id) s.db mem v)

  learn-Returns :
      (n : ℕ) (s : Ssc H)
      → IsSscDb H s.db
      → Returns (ssc_modify_inter_lean_sta H env platform (int_arg n) s)
  unfolding ssc_modify_inter_lean_sta unlock
  learn-Returns n s v = sent-Returns msgid_mac_inter_learn _ _ s (
      write-Returns _ s.db v
        (record { static_table = v.static_table; dyn_table = v.dyn_table; free = refl }))

  age-Returns :
      (n : ℕ) (s : Ssc H)
      → IsSscDb H s.db
      → Returns (ssc_modify_age_time H env platform (int_arg n) s)
  unfolding ssc_modify_age_time unlock
  age-Returns n s v = sent-Returns msgid_mac_agetime _ _ s (
      write-Returns _ s.db v
        (record { static_table = v.static_table; dyn_table = v.dyn_table; free = refl }))

  conf-Returns :
      (c : ConfInfo) (s : Ssc H)
      → IsSscDb H s.db
      → Returns (ssc_rece_pi_ds_data H env platform (conf_info c) s)
  unfolding ssc_rece_pi_ds_data on_db locked_write lock unlock
  conf-Returns c s v =
      let db : SscDb H = record s.db {
        age_time = c.age_time;
        port_status = fill (port_num - 1) 1 (λ i. get_or c.port_status i 0) s.db.port_status;
        locked = false;
      } in
      (
        record s { db = db },
        simp v.free,
        record { static_table = v.static_table; dyn_table = v.dyn_table; free = refl },
      )

  -- A message of a known type, with what goes with it, is handled.
  pub recevie-Returns :
      (m : Msg) (s : Ssc H)
      → env.mem ≡ true
      → IsSscDb H s.db
      → well_formed m.msg_type m.msg ≡ true
      → Returns (ssc_recevie_msg_pi H env platform m s)
  unfolding ssc_recevie_msg_pi well_formed ssc_rece_pi_ds_start ssc_rece_pi_ds_end
  recevie-Returns m s mem v ok =
      let p = m.msg in
      let t = m.msg_type in
      let next = both_tests Returns in
      next (t == msgid_mac_add_addr) _ _ _ _
        (by_static_mac (λ p. Returns (ssc_add_static_func H env platform p s))
          (λ x. add_static-Returns x s mem v) p)
        (next (t == msgid_mac_clear_dyn) _ _ _ _ (λ h. clear_dyn-Returns p s mem v)
          (next (t == msgid_clear_vlan_mac) _ _ _ _
            (by_int (λ p. Returns (ssc_clear_vlan_func H env platform p s))
              (λ x. clear_vlan-Returns x s mem v) p)
            (next (t == msgid_clear_inter_dyn) _ _ _ _
              (by_int (λ p. Returns (ssc_clear_inter_func H env platform p s))
                (λ x. clear_inter-Returns x s mem v) p)
              (next (t == msgid_mac_inter_learn) _ _ _ _
                (by_int (λ p. Returns (ssc_modify_inter_lean_sta H env platform p s))
                  (λ x. learn-Returns x s v) p)
                (next (t == msgid_mac_agetime) _ _ _ _
                  (by_int (λ p. Returns (ssc_modify_age_time H env platform p s))
                    (λ x. age-Returns x s v) p)
                  (next (t == msgid_start) _ _ _ _ (λ h. (_, refl, v))
                    (next (t == msgid_ing) _ _ _ _
                      (by_conf (λ p. Returns (ssc_rece_pi_ds_data H env platform p s))
                        (λ x. conf-Returns x s v) p)
                      (next (t == msgid_end) _ _ _ _ (λ h. (_, refl, v)) (λ h. cc)))))))))
        ok

  -- A notice that holds an entry is handled.
  pub notified-Returns :
      (e : Entry) (s : Ssc H)
      → env.mem ≡ true
      → IsSscDb H s.db
      → Returns (ssc_mac_update_recv H env platform (mac_entry e) s)
  unfolding ssc_mac_update_recv on_db ssc_send_msg_pi ssc_call
  notified-Returns e s mem v =
      let e' = record e { port_id = platform.user_ifx e.port_id } in
      let sent = s.to_pi ++ (message msgid_mac_addr_notify (mac_entry e') ∷ []) in
      elim (Bool-cases (e.flags == 0)) [
        | inl aged ↦
            let (db, run, v') = ssc_call-IsSscDb H env (del_age e') s.db mem v in
            (record s { db = db; to_pi = sent }, simp (aged, mem, run), v')
        | inr learnt ↦
            let (db, run, v') = ssc_call-IsSscDb H env (add_dyn e') s.db mem v in
            (record s { db = db; to_pi = sent }, simp (learnt, mem, run), v')
      ]
