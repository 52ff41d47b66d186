-- ===== src/Ssc/Remove.antt =====
-- The commands that clear addresses, through the management process and the SSC.
use pi_ssc_ssd_ssa.Common.{
  ◌≡◌, refl, sym, ◌∙◌, ap, ℕ, Bool, Bool-cases, inl, inr, Option, false, none, some, if◌then◌else◌,
  ◌==◌,
}
use pi_ssc_ssd_ssa.Public.{Entry, Key}
use pi_ssc_ssd_ssa.Public.Message.{Payload, message, int_arg, msgid_clear_vlan_mac}
use pi_ssc_ssd_ssa.Hlist.{Hlist}
use pi_ssc_ssd_ssa.Table.Chain.{discard}
use pi_ssc_ssd_ssa.Table.Clear.{clear_table, clear_table-entries, clear_table-IsTable}
use pi_ssc_ssd_ssa.Pi.Db.{Env, Db}
use pi_ssc_ssd_ssa.Pi.Local.{call_clear_local_mac, clear_vlan_mac}
use pi_ssc_ssd_ssa.Pi.Clear.{call_clear_local_mac-Cleared, lookup-cleared, clear_vlan_lookup}
use pi_ssc_ssd_ssa.Pi.Learn.{static_at}
use pi_ssc_ssd_ssa.Ssc.Db.{SscDb, lock, unlock, in_vlan, no_count, ssc_del_vlan_addr}
use pi_ssc_ssd_ssa.Ssc.Comm.{
  Platform, Ssc, on_db, ssc_send_ssd_conf, ssc_clear_vlan_func, ssc_recevie_msg_pi,
}
use pi_ssc_ssd_ssa.Ssc.Notice.{Told}

module _ (H : Hlist Entry) where
  -- Clearing by one test on both sides leaves the same dynamic addresses.
  pub clear-Told :
      (type : ℕ) (p : Entry → Bool) (ssc : SscDb H) (pi : Db H)
      → Told H ssc pi
      → Told H
          (record ssc { dyn_tbl = (clear_table H p no_count ssc.dyn_tbl tt).0; locked = false })
          (call_clear_local_mac H type p pi)
  clear-Told type p ssc pi told =
      let c = call_clear_local_mac-Cleared H type p pi told.pi_ok in
      let kept = clear_table-entries H p no_count ssc.dyn_tbl tt in
      let v = told.ssc_ok.dyn_table in
      record {
        ssc_ok = record {
          static_table = told.ssc_ok.static_table;
          dyn_table = clear_table-IsTable H p no_count ssc.dyn_tbl tt v;
          free = refl;
        };
        pi_ok = c.valid;
        agree = λ q.
            lookup-cleared H q p ssc.dyn_tbl _ v kept.0
            ∙ ap (discard p) (told.agree q)
            ∙ sym (lookup-cleared H q p pi.dyn_tbl _ told.pi_ok.dyn_table c.dyn);
      }

  del_vlan-run :
      (vlan : ℕ) (db : SscDb H)
      → db.locked ≡ false
      → ssc_del_vlan_addr H vlan db
        ≡ some (record db {
          dyn_tbl = (clear_table H (in_vlan vlan) no_count db.dyn_tbl tt).0;
          locked = false;
        })
  unfolding ssc_del_vlan_addr lock unlock
  del_vlan-run vlan db free = simp free

  -- A handler that sends to the line cards and then returns from its call on the database.
  pub after_send :
      (env : Env) (platform : Platform) (msgid : ℕ) (body : Payload)
      (f : SscDb H → Option (SscDb H)) (s : Ssc H) (db : SscDb H)
      → f s.db ≡ some db
      → on_db H env platform f (ssc_send_ssd_conf H env platform msgid body s)
        ≡ some (record (ssc_send_ssd_conf H env platform msgid body s) { db = db })
  unfolding on_db ssc_send_ssd_conf
  after_send env platform msgid body f s db run = elim (Bool-cases platform.alloc) [
    | inl sent ↦ simp (sent, run)
    | inr lost ↦ simp (lost, run)
  ]

  -- Let both processes be in order and know the same dynamic addresses, and let the command that
  -- clears a VLAN clear the database of the management process and reach the SSC. Then the SSC
  -- returns, and both are in order and know the same dynamic addresses again; the static addresses of
  -- that VLAN, and no others, are gone from the management process, while the SSC has its static
  -- table as it was.
  pub clear_vlan-Told :
      (env : Env) (platform : Platform) (vlan : ℕ) (s : Ssc H) (pi : Db H) (q : Key)
      → Told H s.db pi
      → let pi' = call_clear_local_mac H msgid_clear_vlan_mac (clear_vlan_mac vlan) pi in
        (s' : Ssc H) × (ssc_recevie_msg_pi H env platform
            (message msgid_clear_vlan_mac (int_arg vlan))
            s
          ≡ some s')
        × Told H s'.db pi'
        × (s'.db.static_tbl ≡ s.db.static_tbl)
        × (static_at H q pi' ≡ (if q.vlan_id == vlan then none else static_at H q pi))
  unfolding ssc_recevie_msg_pi ssc_clear_vlan_func clear_vlan_mac in_vlan
  clear_vlan-Told env platform vlan s pi q told =
      let p = clear_vlan_mac vlan in
      let db = record s.db {
        dyn_tbl = (clear_table H p no_count s.db.dyn_tbl tt).0;
        locked = false;
      } in
      (
        _,
        after_send env platform msgid_clear_vlan_mac (int_arg vlan) (ssc_del_vlan_addr H vlan) s db
            (del_vlan-run vlan s.db told.ssc_ok.free),
        clear-Told msgid_clear_vlan_mac p s.db pi told,
        refl,
        (clear_vlan_lookup H vlan pi q told.pi_ok).1,
      )
