-- ===== src/Ssc/Resync.antt =====
-- The whole of the thread `ssc_ds_data_pi`, and the management process that handles what it sends.
use pi_ssc_ssd_ssa.Common.{
  ℕ, ◌+◌, ◌≡◌, refl, sym, ◌∙◌, ap, inl, inr, true, false, Option, none, some, List, [], ◌∷◌, ◌++◌,
  map, get_or, fill, replicate, Bool, Option-cases,
}
use pi_ssc_ssd_ssa.Public.{Entry, Key, port_num}
use pi_ssc_ssd_ssa.Public.Message.{
  Payload, Msg, message, msgid_start, msgid_ing, msgid_end, nothing, ConfInfo, DsInfo, ds_info,
  ds_conf, ds_static, ds_dyn,
}
use pi_ssc_ssd_ssa.Hlist.{Hlist}
use pi_ssc_ssd_ssa.Table.{entries}
use pi_ssc_ssd_ssa.Table.Chain.{lookup}
use pi_ssc_ssd_ssa.Table.Place.{lookup-home}
use pi_ssc_ssd_ssa.Pi.Db.{Env, IsDb}
use pi_ssc_ssd_ssa.Pi.Handlers.{Pi, deal_msg, ds_ing_of, pi_deal_ds_ing, deal_conf_info}
use pi_ssc_ssd_ssa.Pi.Invariant.{pi_deal_ds_ing-IsDb}
use pi_ssc_ssd_ssa.Pi.Learn.{dyn_at}
use pi_ssc_ssd_ssa.Pi.Order.{deal_all}
use pi_ssc_ssd_ssa.Ssc.Db.{SscDb, lock, unlock}
use pi_ssc_ssd_ssa.Ssc.Comm.{Ssc, ssc_send_msg_pi}
use pi_ssc_ssd_ssa.Ssc.Sync.{
  send_up, send_table, ssc_ds_conf_info, ssc_ds_static_info, ssc_ds_dyn_info, ssc_ds_data_pi,
}
use pi_ssc_ssd_ssa.Ssc.Invariant.{IsSscDb}
use pi_ssc_ssd_ssa.Ssc.Notice.{Told, Agree}
use pi_ssc_ssd_ssa.Ssc.Upload.{
  up, sent, sent-sent, send_up-sent, send_table-sent, overlay, load_static, load_dyn,
}

deal_all-append :
    {S : Type 0} (deal : Msg → S → Option S) (ms ns : List Msg) (s s' : S)
    → deal_all deal ms s ≡ some s'
    → deal_all deal (ms ++ ns) s ≡ deal_all deal ns s'
unfolding deal_all
deal_all-append deal [] ns s s' run = let same : s ≡ s' = cc in rw same refl
deal_all-append deal (m ∷ ms) ns s s' run = elim (Option-cases (deal m s)) [
  | inl bad ↦ cc (rw (bad, deal_all) at run)
  | inr (s₁, good) ↦
      rw (good, deal_all) (deal_all-append deal ms ns s₁ s' (rw (good, deal_all) at run))
]

overlay-none : (o : Option Entry) → overlay o none ≡ o
overlay-none none = refl
overlay-none (some a) = refl

module _ (H : Hlist Entry) where
  -- A mutex that was free is free again.
  freed : (s : Ssc H) → s.db.locked ≡ false → record s { db = record s.db { locked = false } } ≡ s
  freed s free = ap (λ (b : Bool). record s { db = record s.db { locked = b } }) (sym free)

  -- What the thread reads of the configuration.
  abbrev conf_of : Env → SscDb H → ConfInfo
  conf_of env db = record {
    age_time = db.age_time;
    port_status =
        fill port_num 1 (λ i. get_or db.port_status i 0) (replicate (port_num + 1) env.junk);
  }

  abbrev up_conf : DsInfo → Msg
  up_conf d = message msgid_ing (ds_info d)

  abbrev reset : SscDb H → Ssc H → Ssc H
  reset db s = record s { db = record db { locked = false } }

  module _ (env : Env) (mem : env.mem ≡ true) where
    msg-sent :
        (t : ℕ) (p : Payload) (s : Ssc H)
        → ssc_send_msg_pi H env t p s ≡ sent H (message t p ∷ []) s
    unfolding ssc_send_msg_pi
    msg-sent t p s = rw mem refl

    conf-sent :
        (s : Ssc H)
        → s.db.locked ≡ false
        → ssc_ds_conf_info H env s ≡ some (sent H (up_conf (ds_conf (conf_of env s.db)) ∷ []) s)
    unfolding ssc_ds_conf_info lock unlock
    conf-sent s free =
        let d = ds_conf (conf_of env s.db) in
        let s' = record s { db = record s.db { locked = false } } in
        let run : ssc_ds_conf_info H env s ≡ some (send_up H env d s') = simp (mem, free) in
        run ∙ ap some (send_up-sent H env mem d s' ∙ ap (sent H (up_conf d ∷ [])) (freed s free))

    static-sent :
        (s : Ssc H)
        → s.db.locked ≡ false
        → ssc_ds_static_info H env s
          ≡ some (sent H (map (up ds_static) (entries H s.db.static_tbl)) s)
    unfolding ssc_ds_static_info lock unlock
    static-sent s free =
        let ms = map (up ds_static) (entries H s.db.static_tbl) in
        let run : ssc_ds_static_info H env s
            ≡ some (reset s.db (send_table H env ds_static s.db.static_tbl s)) =
          simp (mem, free) in
        run
        ∙ ap some (
            ap (reset s.db) (send_table-sent H env mem ds_static s.db.static_tbl s)
            ∙ freed (sent H ms s) free)

    dyn-sent :
        (s : Ssc H)
        → s.db.locked ≡ false
        → ssc_ds_dyn_info H env s ≡ some (sent H (map (up ds_dyn) (entries H s.db.dyn_tbl)) s)
    unfolding ssc_ds_dyn_info lock unlock
    dyn-sent s free =
        let ms = map (up ds_dyn) (entries H s.db.dyn_tbl) in
        let run : ssc_ds_dyn_info H env s
            ≡ some (reset s.db (send_table H env ds_dyn s.db.dyn_tbl s)) =
          simp (mem, free) in
        run
        ∙ ap some (
            ap (reset s.db) (send_table-sent H env mem ds_dyn s.db.dyn_tbl s)
            ∙ freed (sent H ms s) free)

    -- All that the thread writes to the socket.
    abbrev upload : SscDb H → List Msg
    upload db =
        message msgid_start nothing
        ∷ up_conf (ds_conf (conf_of env db))
        ∷ (map (up ds_static) (entries H db.static_tbl)
            ++ (map (up ds_dyn) (entries H db.dyn_tbl) ++ (message msgid_end nothing ∷ [])))

    -- Given memory, with the mutex free, the thread comes to its end and has sent all of the upload.
    pub ssc_ds_data_pi-sent :
        (s : Ssc H) → s.db.locked ≡ false → ssc_ds_data_pi H env s ≡ some (sent H (upload s.db) s)
    unfolding ssc_ds_data_pi
    ssc_ds_data_pi-sent s free =
        let a = message msgid_start nothing ∷ [] in
        let b = up_conf (ds_conf (conf_of env s.db)) ∷ [] in
        let c = map (up ds_static) (entries H s.db.static_tbl) in
        let d = map (up ds_dyn) (entries H s.db.dyn_tbl) in
        let z = message msgid_end nothing ∷ [] in
        let s1 = sent H a s in
        let s2 = sent H b s1 in
        let s3 = sent H c s2 in
        let run : ssc_ds_data_pi H env s ≡ some (sent H z (sent H d s3)) = simp (
          msg-sent msgid_start nothing s,
          conf-sent s1 free,
          static-sent s2 free,
          dyn-sent s3 free,
          msg-sent msgid_end nothing (sent H d s3),
        ) in
        run
        ∙ ap some (
            sent-sent H d z s3
            ∙ sent-sent H c (d ++ z) s2
            ∙ sent-sent H b (c ++ (d ++ z)) s1
            ∙ sent-sent H a (b ++ (c ++ (d ++ z))) s)

  -- Let the SSC be in order, and the management process be in order with no dynamic address, as at
  -- its start, and let there be memory. Then the thread comes to its end; handling in order all that
  -- it wrote to the socket, the management process faults nowhere, and both are in order and know the
  -- same dynamic addresses.
  pub ssc_ds_data_pi-Told :
      (env : Env) (create : Bool) (s : Ssc H) (pi : Pi H)
      → env.mem ≡ true
      → IsSscDb H s.db
      → IsDb H pi.db
      → ((q : Key) → dyn_at H q pi.db ≡ none)
      → (ms : List Msg) × (pi' : Pi H) × (ssc_ds_data_pi H env s ≡ some (sent H ms s))
        × (deal_all (deal_msg H env create) ms pi ≡ some pi')
        × Told H s.db pi'.db
  unfolding deal_all deal_msg ds_ing_of pi_deal_ds_ing deal_conf_info lookup
  ssc_ds_data_pi-Told env create s pi mem v w bare =
      let c = pi_deal_ds_ing H env (ds_conf (conf_of env s.db)) pi.db in
      let statics = map (up ds_static) (entries H s.db.static_tbl) in
      let dyns = map (up ds_dyn) (entries H s.db.dyn_tbl) in
      let p1 = record pi { db = c } in
      let p2 =
        load_static H env create (entries H s.db.static_tbl) p1
          (pi_deal_ds_ing-IsDb H env (ds_conf (conf_of env s.db)) pi.db w) in
      let p3 =
        load_dyn H env create mem (entries H s.db.dyn_tbl) p2.pi' p2.ok
          (λ q. (lookup-home H s.db.dyn_tbl q v.dyn_table).1) in
      let agree : Agree H s.db p3.pi'.db = λ q.
        let start : dyn_at H q p2.pi'.db ≡ none = p2.reads q ∙ bare q in
        sym
          (p3.reads q ∙ ap (overlay (lookup q (entries H s.db.dyn_tbl))) start ∙ overlay-none _) in
      (
        upload env mem s.db,
        p3.pi',
        ssc_ds_data_pi-sent env mem s v.free,
        deal_all-append (deal_msg H env create) statics _ p1 p2.pi' p2.run
            ∙ deal_all-append (deal_msg H env create) dyns (message msgid_end nothing ∷ []) p2.pi'
                p3.pi' p3.run,
        record { ssc_ok = v; pi_ok = p3.ok; agree = agree },
      )
