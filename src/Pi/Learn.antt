-- ===== src/Pi/Learn.antt =====
-- What the messages of the SSC do to the addresses in the management process.
use pi_ssc_ssd_ssa.Common.{
  ℕ, ◌≡◌, ◌≢◌, refl, sym, ◌∙◌, inl, inr, true, false, Option, some, List, [], ◌∷◌, arith, ◌==◌, ltb,
  get_or, get_or-fill, if◌then◌else◌, Bool-cases, if_both,
}
use pi_ssc_ssd_ssa.Public.{Entry, Key, key_of, zero_entry, port_num}
use pi_ssc_ssd_ssa.Public.Compare.{memcmp_key, memcmp_key_iff, IsPlain}
use pi_ssc_ssd_ssa.Public.Message.{ConfInfo, ds_static}
use pi_ssc_ssd_ssa.Hlist.{Hlist}
use pi_ssc_ssd_ssa.Table.{entries}
use pi_ssc_ssd_ssa.Table.Chain.{lookup, merge, discard}
use pi_ssc_ssd_ssa.Table.Insert.{insert_hash_table-Inserted}
use pi_ssc_ssd_ssa.Table.Delete.{exact, del_hash_entry-Deleted}
use pi_ssc_ssd_ssa.Pi.Db.{Env, Db, IsDb}
use pi_ssc_ssd_ssa.Pi.Local.{add_static, add_dyn}
use pi_ssc_ssd_ssa.Pi.Handlers.{
  pi_add_local_dyn, pi_del_local_dyn, pi_deal_notify_msg, deal_conf_info, deal_static_info,
  pi_deal_ds_ing,
}
use pi_ssc_ssd_ssa.Pi.Invariant.{pi_deal_ds_ing-IsDb}

module _ (H : Hlist Entry) where
  -- The dynamic address under a key.
  abbrev pub dyn_at : Key → Db H → Option Entry
  dyn_at q db = lookup q (entries H db.dyn_tbl)

  abbrev pub static_at : Key → Db H → Option Entry
  static_at q db = lookup q (entries H db.static_tbl)

  -- A notice with the flag set, given memory: its key has its port, no other key changes, and the
  -- static addresses stay.
  pub notify_learn :
      (env : Env) (e : Entry) (db : Db H) (q : Key)
      → IsDb H db
      → env.mem ≡ true
      → e.flags ≢ 0
      → let db' = pi_deal_notify_msg H env e db in
        (dyn_at q db' ≡ (if memcmp_key q e then some (merge e (dyn_at q db)) else dyn_at q db))
        × (db'.static_tbl ≡ db.static_tbl)
  unfolding pi_deal_notify_msg pi_add_local_dyn add_dyn
  notify_learn env e db q v m f =
      let s = insert_hash_table-Inserted H env.junk e db.dyn_tbl v.dyn_table in
      let test : (e.flags == 0) ≡ false = ground arith in simp (test, m) (s.reads q, refl)

  -- A notice with the flag clear and a plain address: the entry under its key goes if it has the
  -- port of the notice, no other key changes, and the static addresses stay.
  pub notify_age :
      (env : Env) (e : Entry) (db : Db H) (q : Key)
      → IsDb H db
      → IsPlain e.mac
      → e.flags ≡ 0
      → let db' = pi_deal_notify_msg H env e db in
        (dyn_at q db' ≡ discard (exact e) (dyn_at q db)) × (db'.static_tbl ≡ db.static_tbl)
  unfolding pi_deal_notify_msg pi_del_local_dyn
  notify_age env e db q v p f =
      let s = del_hash_entry-Deleted H env.junk e db.dyn_tbl v.dyn_table p in
      let test : (e.flags == 0) ≡ true = ground arith in rw test (s.reads q, refl)

  -- The configuration of the SSC sets the age time and the places 0 to 23 of the array.
  pub deal_conf_info-ports :
      (c : ConfInfo) (db : Db H) (j : ℕ)
      → IsDb H db
      → ((deal_conf_info H c db).age_time ≡ c.age_time)
        × (get_or (deal_conf_info H c db).port_status j 0
            ≡ (if ltb j port_num then get_or c.port_status j 0 else get_or db.port_status j 0))
  unfolding deal_conf_info
  deal_conf_info-ports c db j v = (
    refl,
    ground (
      arith,
      get_or-fill port_num 0 (λ i. get_or c.port_status i 0) db.port_status j 0
          (omega (arith, v.ports)),
    ),
  )

  -- The static addresses that the SSC sends at a synchronisation, one message after the other.
  unfoldable pub sync_static : List (Env × Entry) → Db H → Db H
  sync_static [] db = db
  sync_static ((env, e) ∷ es) db = sync_static es (pi_deal_ds_ing H env (ds_static e) db)

  not_zero : (q : Key) → q ≢ key_of zero_entry → memcmp_key q zero_entry ≡ false
  not_zero q h = elim (Bool-cases (memcmp_key q zero_entry)) [
    | inl same ↦ absurd (h (sym ((memcmp_key_iff q zero_entry).0 same)))
    | inr other ↦ other
  ]

  static_kept :
      (env : Env) (e : Entry) (db : Db H) (q : Key)
      → IsDb H db
      → q ≢ key_of zero_entry
      → static_at q (pi_deal_ds_ing H env (ds_static e) db) ≡ static_at q db
  unfolding pi_deal_ds_ing deal_static_info add_static
  static_kept env e db q v h =
      let s = insert_hash_table-Inserted H env.junk zero_entry db.static_tbl v.static_table in
      let step : static_at q (add_static H env zero_entry db) ≡ static_at q db =
        s.reads q ∙ rw (not_zero q h) in
      if_both (λ (d : Db H). static_at q d ≡ static_at q db) env.mem _ _ step refl

  -- None of them arrives: whatever is sent, an address other than zero is in the static table
  -- exactly if it was before.
  pub sync_static_lost :
      (es : List (Env × Entry)) (db : Db H) (q : Key)
      → IsDb H db
      → q ≢ key_of zero_entry
      → static_at q (sync_static es db) ≡ static_at q db
  unfolding sync_static
  sync_static_lost [] db q v h = refl
  sync_static_lost ((env, e) ∷ es) db q v h =
      sync_static_lost es _ q (pi_deal_ds_ing-IsDb H env (ds_static e) db v) h
      ∙ static_kept env e db q v h
