-- ===== src/Ssc/Notice.antt =====
-- A notice of the line cards, through the SSC and the management process.
use pi_ssc_ssd_ssa.Common.{
  ◌≡◌, ◌≢◌, refl, sym, ◌∙◌, inl, inr, Bool, true, false, some, List, [], ◌∷◌, ◌++◌, arith, ◌==◌,
  ==_iff, Bool-cases, Option-cases,
}
use pi_ssc_ssd_ssa.Public.{Entry, Key, key_of}
use pi_ssc_ssd_ssa.Public.Compare.{memcmp_key, memcmp_key_iff, IsPlain}
use pi_ssc_ssd_ssa.Public.Message.{Msg, message, mac_entry, msgid_mac_addr_notify}
use pi_ssc_ssd_ssa.Hlist.{Hlist}
use pi_ssc_ssd_ssa.Table.{entries, insert_hash_table}
use pi_ssc_ssd_ssa.Table.Chain.{lookup, discard, lookup-key}
use pi_ssc_ssd_ssa.Table.Delete.{exact}
use pi_ssc_ssd_ssa.Table.Insert.{insert_hash_table-Inserted}
use pi_ssc_ssd_ssa.Pi.Db.{Env, Db, IsDb}
use pi_ssc_ssd_ssa.Pi.Handlers.{Pi, deal_msg, notify_of, pi_deal_notify_msg}
use pi_ssc_ssd_ssa.Pi.Invariant.{pi_deal_notify_msg-IsDb}
use pi_ssc_ssd_ssa.Pi.Learn.{dyn_at, notify_learn, notify_age}
use pi_ssc_ssd_ssa.Ssc.Db.{SscDb, ssc_add_dyn_addr, ssc_del_age_entry}
use pi_ssc_ssd_ssa.Ssc.Store.{ssc_add_dyn_addr-insert}
use pi_ssc_ssd_ssa.Ssc.Age.{ssc_del_age_entry-Aged}
use pi_ssc_ssd_ssa.Ssc.Comm.{Platform, Ssc, on_db, ssc_send_msg_pi, ssc_mac_update_recv}
use pi_ssc_ssd_ssa.Ssc.Invariant.{IsSscDb}

module _ (H : Hlist Entry) where
  -- The two processes know the same dynamic addresses.
  abbrev pub Agree : SscDb H → Db H → Type 0
  Agree ssc pi = (q : Key) → lookup q (entries H ssc.dyn_tbl) ≡ dyn_at H q pi

  -- What the SSC and the management process are after a notice: both in order, and of one mind.
  pub record Told (ssc : SscDb H) (pi : Db H) : Type 0 where
    pub ssc_ok : IsSscDb H ssc
    pub pi_ok : IsDb H pi
    pub agree : Agree ssc pi

  -- A deletion by the key and one by the key and the port agree on an address with that port.
  discard_port :
      (q : Key) (e : Entry) (l : List Entry)
      → ((a : Entry) → lookup (key_of e) l ≡ some a → a.port_id ≡ e.port_id)
      → discard (memcmp_key (key_of e)) (lookup q l) ≡ discard (exact e) (lookup q l)
  unfolding exact
  discard_port q e l port = elim (Option-cases (lookup q l)) [
    | inl gone ↦ rw gone refl
    | inr (a, found) ↦ elim (Bool-cases (memcmp_key (key_of e) a)) [
      | inr other ↦ rw (found, other) refl
      | inl same ↦
          let at_q = (memcmp_key_iff q a).0 (lookup-key q l a found) in
          let at_e = (memcmp_key_iff (key_of e) a).0 same in
          let key : q ≡ key_of e = sym at_q ∙ at_e in
          let there : lookup (key_of e) l ≡ some a = rw (← key) found in
          let eq : (a.port_id == e.port_id) ≡ true =
            (==_iff a.port_id e.port_id).1 (port a there) in
          rw (found, same, eq) refl
    ]
  ]

  pub learn-Told :
      (env : Env) (e : Entry) (ssc : SscDb H) (pi : Db H)
      → Told ssc pi
      → env.mem ≡ true
      → IsPlain e.mac
      → e.flags ≢ 0
      → (ssc' : SscDb H) × (ssc_add_dyn_addr H env e ssc ≡ some ssc')
        × Told ssc' (pi_deal_notify_msg H env e pi)
  learn-Told env e ssc pi told m p f =
      let ins = insert_hash_table-Inserted H env.junk e ssc.dyn_tbl told.ssc_ok.dyn_table in
      (
        record ssc { dyn_tbl = (insert_hash_table H env.junk e ssc.dyn_tbl).0; locked = false },
        ssc_add_dyn_addr-insert H env e ssc told.ssc_ok.free m p,
        record {
          ssc_ok = record {
            static_table = told.ssc_ok.static_table;
            dyn_table = ins.table;
            free = refl;
          };
          pi_ok = pi_deal_notify_msg-IsDb H env e pi told.pi_ok;
          agree = λ q.
              rw (ins.reads q, told.agree q) (sym (notify_learn H env e pi q told.pi_ok m f).0);
        },
      )

  age-Told :
      (env : Env) (e : Entry) (ssc : SscDb H) (pi : Db H)
      → Told ssc pi
      → IsPlain e.mac
      → e.flags ≡ 0
      → ((a : Entry) → dyn_at H (key_of e) pi ≡ some a → a.port_id ≡ e.port_id)
      → (ssc' : SscDb H) × (ssc_del_age_entry H env e ssc ≡ some ssc')
        × Told ssc' (pi_deal_notify_msg H env e pi)
  age-Told env e ssc pi told p f port =
      let (t, run, aged) =
        ssc_del_age_entry-Aged H env e ssc told.ssc_ok.free told.ssc_ok.dyn_table in
      (
        record ssc { dyn_tbl = t; locked = false },
        run,
        record {
          ssc_ok = record {
            static_table = told.ssc_ok.static_table;
            dyn_table = aged.table;
            free = refl;
          };
          pi_ok = pi_deal_notify_msg-IsDb H env e pi told.pi_ok;
          agree = λ q.
              rw (aged.reads q, told.agree q)
                (discard_port q e (entries H pi.dyn_tbl) port
                  ∙ sym (notify_age H env e pi q told.pi_ok p f).0);
        },
      )

  -- Let the SSC and the management process be in order and know the same dynamic addresses, with
  -- memory, and a notice come from a line card for an address with no zero byte among its first
  -- five. If it tells of ageing, let the address, where it is known, be known at the port of the
  -- notice as users see it. Then the SSC returns, having sent one message more to the management
  -- process; when that has handled the message, both are in order and know the same dynamic
  -- addresses again.
  pub ssc_mac_update_recv-Told :
      (env : Env) (platform : Platform) (create : Bool) (e : Entry) (s : Ssc H) (pi : Pi H)
      → Told s.db pi.db
      → env.mem ≡ true
      → IsPlain e.mac
      → (e.flags ≡ 0
          → (a : Entry) → dyn_at H (key_of e) pi.db ≡ some a
          → a.port_id ≡ platform.user_ifx e.port_id)
      → (s' : Ssc H) × (pi' : Pi H) × (m : Msg) × (ssc_mac_update_recv H env platform
            (mac_entry e)
            s
          ≡ some s')
        × (s'.to_pi ≡ s.to_pi ++ (m ∷ []))
        × (deal_msg H env create m pi ≡ some pi')
        × Told s'.db pi'.db
  unfolding ssc_mac_update_recv on_db ssc_send_msg_pi deal_msg notify_of
  ssc_mac_update_recv-Told env platform create e s pi told m p port =
      let e' = record e { port_id = platform.user_ifx e.port_id } in
      let msg = message msgid_mac_addr_notify (mac_entry e') in
      let pi' = record pi { db = pi_deal_notify_msg H env e' pi.db } in
      elim (Bool-cases (e.flags == 0)) [
        | inl zero_flag ↦
            let (db, run, t) =
              age-Told env e' s.db pi.db told p ((==_iff e.flags 0).0 zero_flag)
                (port ((==_iff e.flags 0).0 zero_flag)) in
            (
              record s { db = db; to_pi = s.to_pi ++ (msg ∷ []) },
              pi',
              msg,
              simp (zero_flag, m, run),
              refl,
              refl,
              t,
            )
        | inr set_flag ↦
            let (db, run, t) =
              learn-Told env e' s.db pi.db told m p (ground (arith, ==_iff e.flags 0)) in
            (
              record s { db = db; to_pi = s.to_pi ++ (msg ∷ []) },
              pi',
              msg,
              simp (set_flag, m, run),
              refl,
              refl,
              t,
            )
      ]
