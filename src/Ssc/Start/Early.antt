-- ===== src/Ssc/Start/Early.antt =====
-- Messages that the SSC reads before `ssc_mac_rookie_init` has come to its end.
use pi_ssc_ssd_ssa.Common.{◌≡◌, refl, Bool, true, none, some, List, [], ◌∷◌, if_both}
use pi_ssc_ssd_ssa.Public.{Entry, StaticMac}
use pi_ssc_ssd_ssa.Public.Message.{Msg, message, static_mac, msgid_mac_add_addr}
use pi_ssc_ssd_ssa.Hlist.{Hlist}
use pi_ssc_ssd_ssa.Table.{entries}
use pi_ssc_ssd_ssa.Table.Chain.{lookup}
use pi_ssc_ssd_ssa.Table.Place.{empty_table-entries}
use pi_ssc_ssd_ssa.Pi.Db.{Env}
use pi_ssc_ssd_ssa.Ssc.Db.{static_key, ssc_db_init}
use pi_ssc_ssd_ssa.Ssc.Comm.{Platform, Ssc, ssc_send_msg_pi}
use pi_ssc_ssd_ssa.Ssc.Sync.{ssc_send_pi_fetch}
use pi_ssc_ssd_ssa.Ssc.Invariant.{IsSscDb}
use pi_ssc_ssd_ssa.Ssc.Process.{
  Part, reading, stopped, connect, read, Process, step, pthread_deal_func, ssc_sync_data_pi,
}
use pi_ssc_ssd_ssa.Ssc.Static.{stored}
use pi_ssc_ssd_ssa.Ssc.Start.{
  db_init, register, ssc_mac_rookie_init, next_call, meanwhile, Start, ssc_comm_init, call,
  meanwhile_step, start_step, start_steps,
}

module _ (H : Hlist Entry) where
  module _ (env : Env) (platform : Platform) where
    -- The process as it is when `ssc_mac_rookie_init` begins.
    abbrev pub begun : Ssc H → List (List Part) → Start H
    begun s ts = record {
      process = record { ssc = s; link = stopped; threads = ts };
      left = ssc_mac_rookie_init;
    }

    fetched-IsSscDb : (s : Ssc H) → IsSscDb H s.db → IsSscDb H (ssc_send_pi_fetch H env s).db
    unfolding ssc_send_pi_fetch ssc_send_msg_pi
    fetched-IsSscDb s v = if_both (λ (r : Ssc H). IsSscDb H r.db) env.mem _ _ v v

    -- A message that is read as soon as the connection is made is a call through NULL.
    connected-fault :
        (c : Bool) (m : Msg) (s : Ssc H) (ts : List (List Part))
        → start_steps H env platform
            (next_call true ∷ meanwhile (connect true c) ∷ meanwhile (read m) ∷ [])
            (begun s ts)
          ≡ none
    unfolding start_steps start_step call ssc_comm_init meanwhile_step step pthread_deal_func
    connected-fault c m s ts = refl

    -- Let there be memory and the database be in order when the SSC begins, and let its thread start,
    -- connect and read a message, at a time when `ssc_mac_rookie_init` has other calls left. If the
    -- functions are not set yet, the call goes through NULL, whatever the message. If they are set,
    -- and the database is not, a message that adds a static address puts it into the table, and the
    -- next call takes all addresses out of both tables; what was sent to the line cards stays sent.
    pub early_message-lost :
        (c : Bool) (a : StaticMac) (s : Ssc H) (ts : List (List Part))
        → env.mem ≡ true
        → IsSscDb H s.db
        → let add = message msgid_mac_add_addr (static_mac a) in
          let key = static_key (record a { port_id = platform.phyid a.port_id }) in
          ((m : Msg)
            → start_steps H env platform
                (next_call true ∷ meanwhile (connect true c) ∷ meanwhile (read m) ∷ [])
                (begun s ts)
              ≡ none)
          × (b1 : Start H) × (b2 : Start H) × (e : Entry) × (start_steps H env platform
                (next_call true
                  ∷ meanwhile (connect true c)
                  ∷ next_call true
                  ∷ meanwhile (read add)
                  ∷ [])
                (begun s ts)
              ≡ some b1)
          × (lookup key (entries H b1.process.ssc.db.static_tbl) ≡ some e)
          × (start_step H env platform (next_call true) b1 ≡ some b2)
          × (entries H b2.process.ssc.db.static_tbl ≡ [])
          × (entries H b2.process.ssc.db.dyn_tbl ≡ [])
          × (b2.process.ssc.to_ssd ≡ b1.process.ssc.to_ssd)
    unfolding start_steps start_step call ssc_comm_init meanwhile_step step pthread_deal_func
        ssc_db_init
    early_message-lost c a s ts mem v =
        let (s2, e, run, there, port, sent, ok) =
          stored H env platform a (ssc_send_pi_fetch H env s) mem (fetched-IsSscDb s v) in
        let ts1 = ssc_sync_data_pi H env platform c ts in
        let p2 : Process H = record { ssc = s2; link = reading; threads = ts1 } in
        let p3 : Process H = record p2 { ssc = record s2 { db = ssc_db_init H s2.db } } in
        (
          λ m. connected-fault c m s ts,
          record { process = p2; left = db_init ∷ register ∷ [] },
          record { process = p3; left = register ∷ [] },
          e,
          rw run refl,
          there,
          refl,
          empty_table-entries H,
          empty_table-entries H,
          refl,
        )
