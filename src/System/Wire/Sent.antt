-- ===== src/System/Wire/Sent.antt =====
-- What the SSC writes are messages that the management process can handle.
use pi_ssc_ssd_ssa.Common.{
  ℕ, ◌≡◌, refl, inl, inr, true, Option, none, some, List, [], ◌∷◌, ◌==◌, arith, if_both, Ensures,
  Ensures-some, every, every-append, ◌>>=◌, Option-cases, get_or, set,
}
use pi_ssc_ssd_ssa.Public.{Entry}
use pi_ssc_ssd_ssa.Public.Message.{
  DsInfo, ds_static, ds_dyn, Payload, nothing, int_arg, static_mac, mac_entry, conf_info, ds_info,
  Msg, message, msgid_mac_add_addr, msgid_mac_clear_dyn, msgid_clear_vlan_mac,
  msgid_clear_inter_dyn, msgid_mac_inter_learn, msgid_mac_agetime, msgid_start, msgid_ing,
  msgid_end, msgid_mac_fetch, msgid_mac_addr_notify,
}
use pi_ssc_ssd_ssa.Hlist.{Hlist}
use pi_ssc_ssd_ssa.Table.{Table}
use pi_ssc_ssd_ssa.Pi.Db.{Env}
use pi_ssc_ssd_ssa.Pi.Process.Queue.{can_handle}
use pi_ssc_ssd_ssa.Ssc.Db.{SscDb, lock}
use pi_ssc_ssd_ssa.Ssc.Comm.{
  Platform, Ssc, on_db, ssc_send_msg_pi, ssc_send_ssd_conf, ssc_recevie_msg_pi, ssc_mac_update_recv,
  ssc_add_static_func, ssc_clear_dyn_func, ssc_clear_vlan_func, ssc_clear_inter_func,
  ssc_modify_age_time, ssc_modify_inter_lean_sta, ssc_rece_pi_ds_start, ssc_rece_pi_ds_data,
  ssc_rece_pi_ds_end, ssc_deal_ds,
}
use pi_ssc_ssd_ssa.Ssc.Sync.{
  ssc_send_pi_fetch, send_up, send_chain, send_table, ssc_ds_conf_info, ssc_ds_static_info,
  ssc_ds_dyn_info,
}
use pi_ssc_ssd_ssa.Ssc.Process.{
  Part, sync_start, sync_conf, sync_static, sync_dyn, sync_end, connecting, reading, Event, connect,
  read, read_failed, notified, sync, looked, Process, sync_part, pthread_deal_func, sync_thread,
  step,
}

module _ (H : Hlist Entry) (env : Env) (platform : Platform) where
  abbrev pub CanPi : Ssc H → Type 0
  CanPi s = every can_handle s.to_pi ≡ true

  send-CanPi :
      (type : ℕ) (p : Payload) (s : Ssc H)
      → can_handle (message type p) ≡ true
      → CanPi s
      → CanPi (ssc_send_msg_pi H env type p s)
  unfolding ssc_send_msg_pi every
  send-CanPi type p s can v =
      if_both CanPi env.mem _ s
        (every-append can_handle s.to_pi (message type p ∷ []) v (ground (arith, can))) v

  -- A message to the line cards, and a call on the database, write nothing to the socket.
  ssd-CanPi :
      (type : ℕ) (p : Payload) (s : Ssc H)
      → CanPi s
      → CanPi (ssc_send_ssd_conf H env platform type p s)
  unfolding ssc_send_ssd_conf
  ssd-CanPi type p s v = if_both CanPi platform.alloc _ s v v

  on_db-CanPi :
      (f : SscDb H → Option (SscDb H)) (s : Ssc H)
      → CanPi s
      → Ensures CanPi (on_db H env platform f s)
  unfolding on_db
  on_db-CanPi f s v = elim (Option-cases (f s.db)) [
    | inl stuck ↦ rw stuck tt
    | inr (db, run) ↦ rw run v
  ]

  sent_on_db-CanPi :
      (type : ℕ) (p : Payload) (f : SscDb H → Option (SscDb H)) (s : Ssc H)
      → CanPi s
      → Ensures CanPi (on_db H env platform f (ssc_send_ssd_conf H env platform type p s))
  sent_on_db-CanPi type p f s v = on_db-CanPi f _ (ssd-CanPi type p s v)

  recevie-CanPi :
      (m : Msg) (s : Ssc H) → CanPi s → Ensures CanPi (ssc_recevie_msg_pi H env platform m s)
  unfolding ssc_recevie_msg_pi ssc_add_static_func ssc_clear_dyn_func ssc_clear_vlan_func
      ssc_clear_inter_func ssc_modify_inter_lean_sta ssc_modify_age_time ssc_rece_pi_ds_start
      ssc_rece_pi_ds_data ssc_rece_pi_ds_end
  recevie-CanPi m s v =
      let t = m.msg_type in
      let Q : Option (Ssc H) → Type 0 = Ensures CanPi in
      let next = if_both Q in
      let P = λ (f : Payload → Ssc H → Option (Ssc H)). (p : Payload) → Ensures CanPi (f p s) in
      let add : P (ssc_add_static_func H env platform) = λ p.
        elim p as (λ k. Q (ssc_add_static_func H env platform k s)) [
          | static_mac a ↦ sent_on_db-CanPi _ _ _ s v
          | _ ↦ tt
        ] in
      let vlan : P (ssc_clear_vlan_func H env platform) = λ p.
        elim p as (λ k. Q (ssc_clear_vlan_func H env platform k s)) [
          | int_arg a ↦ sent_on_db-CanPi _ _ _ s v
          | _ ↦ tt
        ] in
      let inter : P (ssc_clear_inter_func H env platform) = λ p.
        elim p as (λ k. Q (ssc_clear_inter_func H env platform k s)) [
          | int_arg a ↦ sent_on_db-CanPi _ _ _ s v
          | _ ↦ tt
        ] in
      let sta : P (ssc_modify_inter_lean_sta H env platform) = λ p.
        elim p as (λ k. Q (ssc_modify_inter_lean_sta H env platform k s)) [
          | int_arg a ↦ sent_on_db-CanPi _ _ _ s v
          | _ ↦ tt
        ] in
      let age : P (ssc_modify_age_time H env platform) = λ p.
        elim p as (λ k. Q (ssc_modify_age_time H env platform k s)) [
          | int_arg a ↦ sent_on_db-CanPi _ _ _ s v
          | _ ↦ tt
        ] in
      let conf : P (ssc_rece_pi_ds_data H env platform) = λ p.
        elim p as (λ k. Q (ssc_rece_pi_ds_data H env platform k s)) [
          | conf_info a ↦ on_db-CanPi _ s v
          | _ ↦ tt
        ] in
      next (t == msgid_mac_add_addr) _ _ (add m.msg) (
        next (t == msgid_mac_clear_dyn) _ _ (sent_on_db-CanPi _ _ _ s v) (
          next (t == msgid_clear_vlan_mac) _ _ (vlan m.msg) (
            next (t == msgid_clear_inter_dyn) _ _ (inter m.msg) (
              next (t == msgid_mac_inter_learn) _ _ (sta m.msg) (
                next (t == msgid_mac_agetime) _ _ (age m.msg) (
                  next (t == msgid_start) _ _ v
                    (next (t == msgid_ing) _ _ (conf m.msg) (next (t == msgid_end) _ _ v tt))))))))

  notified-CanPi :
      (e : Entry) (s : Ssc H)
      → CanPi s
      → Ensures CanPi (ssc_mac_update_recv H env platform (mac_entry e) s)
  unfolding ssc_mac_update_recv can_handle
  notified-CanPi e s v =
      let e' = record e { port_id = platform.user_ifx e.port_id } in
      let w = send-CanPi msgid_mac_addr_notify (mac_entry e') s refl v in
      if_both (Ensures CanPi) (e.flags == 0) _ _ (on_db-CanPi _ _ w) (on_db-CanPi _ _ w)

  chain-CanPi :
      (f : Entry → DsInfo) (es : List Entry) (s : Ssc H) → CanPi s → CanPi (send_chain H env f es s)
  unfolding send_chain send_up can_handle
  chain-CanPi f [] s v = v
  chain-CanPi f (e ∷ es) s v = chain-CanPi f es _ (send-CanPi msgid_ing (ds_info (f e)) s refl v)

  table-CanPi :
      (f : Entry → DsInfo) (t : Table H) (s : Ssc H) → CanPi s → CanPi (send_table H env f t s)
  unfolding send_table
  table-CanPi f [] s v = v
  table-CanPi f (h ∷ t) s v =
      table-CanPi f t _ (if_both CanPi (H.no_first h) s _ v (chain-CanPi f (H.walk h) s v))

  locked-CanPi :
      (db : SscDb H) (f : SscDb H → Ssc H)
      → ((d : SscDb H) → CanPi (f d))
      → Ensures CanPi (lock H db >>= (λ d. some (f d)))
  locked-CanPi db f v = elim (Option-cases (lock H db)) [
    | inl taken ↦ rw taken tt
    | inr (d, free) ↦ rw free (v d)
  ]

  part-CanPi : (part : Part) (s : Ssc H) → CanPi s → Ensures CanPi (sync_part H env platform part s)
  unfolding sync_part ssc_ds_conf_info ssc_ds_static_info ssc_ds_dyn_info send_up can_handle
  part-CanPi sync_start s v = send-CanPi msgid_start nothing s refl v
  part-CanPi sync_conf s v =
      if_both (Ensures CanPi) env.mem _ _
        (locked-CanPi s.db _ (λ d. send-CanPi msgid_ing _ _ refl v)) v
  part-CanPi sync_static s v =
      if_both (Ensures CanPi) env.mem _ _
        (locked-CanPi s.db _ (λ d. table-CanPi ds_static d.static_tbl s v)) v
  part-CanPi sync_dyn s v =
      if_both (Ensures CanPi) env.mem _ _
        (locked-CanPi s.db _ (λ d. table-CanPi ds_dyn d.dyn_tbl s v)) v
  part-CanPi sync_end s v = send-CanPi msgid_end nothing s refl v

  abbrev Goes : Option (Process H) → Type 0
  Goes o = Ensures (λ (q : Process H). CanPi q.ssc) o

  -- A step that goes on with what a call on the state of the SSC leaves.
  after-CanPi :
      (o : Option (Ssc H)) (f : Ssc H → Process H)
      → ((s : Ssc H) → CanPi s → CanPi (f s).ssc)
      → Ensures CanPi o
      → Goes (o >>= (λ s. some (f s)))
  after-CanPi none f keeps v = tt
  after-CanPi (some s) f keeps v = keeps s v

  connection-CanPi :
      (e : Event) (p : Process H) → CanPi p.ssc → Goes (pthread_deal_func H env platform e p)
  unfolding pthread_deal_func ssc_send_pi_fetch can_handle
  connection-CanPi (connect ok create) p v =
      elim p.link
        as (λ l.
          Goes (pthread_deal_func H env platform (connect ok create) (record p { link = l }))) [
            | connecting ↦ if_both (Goes) ok _ _ (send-CanPi msgid_mac_fetch nothing p.ssc refl v) v
            | _ ↦ tt
          ]
  connection-CanPi (read m) p v =
      elim p.link
        as (λ l. Goes (pthread_deal_func H env platform (read m) (record p { link = l }))) [
          | reading ↦ after-CanPi _ _ (λ s w. w) (recevie-CanPi m p.ssc v)
          | _ ↦ tt
        ]
  connection-CanPi (read_failed opened) p v =
      elim p.link
        as (λ l.
          Goes (pthread_deal_func H env platform (read_failed opened) (record p { link = l }))) [
            | reading ↦ v
            | _ ↦ tt
          ]
  connection-CanPi e p v = tt

  sync-CanPi : (k : ℕ) (p : Process H) → CanPi p.ssc → Goes (sync_thread H env platform k p)
  unfolding sync_thread
  sync-CanPi k p v =
      elim (get_or p.threads k [])
        as (λ l. Goes (elim l [
          | [] ↦ none
          | part ∷ rest ↦
              sync_part H env platform part p.ssc
              >>= (λ s. some (record p { ssc = s; threads = set p.threads k rest }))
        ])) [ [] ↦ tt | part ∷ rest ↦ after-CanPi _ _ (λ s w. w) (part-CanPi part p.ssc v) ]

  steps-CanPi : (e : Event) (p : Process H) → CanPi p.ssc → Goes (step H env platform e p)
  unfolding step ssc_deal_ds ssc_mac_update_recv
  steps-CanPi (connect ok create) p v = connection-CanPi (connect ok create) p v
  steps-CanPi (read m) p v = connection-CanPi (read m) p v
  steps-CanPi (read_failed opened) p v = connection-CanPi (read_failed opened) p v
  steps-CanPi (notified (mac_entry e)) p v = after-CanPi _ _ (λ s w. w) (notified-CanPi e p.ssc v)
  steps-CanPi (notified body) p v = tt
  steps-CanPi (sync k) p v = sync-CanPi k p v
  steps-CanPi looked p v = if_both CanPi p.ssc.ds_is_end _ _ v v

  -- What the SSC has written stays what the management process can handle.
  pub step-CanPi :
      (e : Event) (p p' : Process H)
      → CanPi p.ssc
      → step H env platform e p ≡ some p'
      → CanPi p'.ssc
  step-CanPi e p p' v run =
      Ensures-some (λ (q : Process H). CanPi q.ssc) _ p' (steps-CanPi e p v) run
