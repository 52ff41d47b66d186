-- ===== src/Ssc/Blocked.antt =====
-- A failed `malloc` in `ssc_local_add_addr` stops the SSC.
use pi_ssc_ssd_ssa.Common.{◌≡◌, refl, ◌∙◌, ap, true, false, none, some, List, ◌∷◌}
use pi_ssc_ssd_ssa.Public.{Entry, StaticMac}
use pi_ssc_ssd_ssa.Public.Hash.{hash_function, hash-home}
use pi_ssc_ssd_ssa.Hlist.{Hlist}
use pi_ssc_ssd_ssa.Table.{entries, find_hash_key}
use pi_ssc_ssd_ssa.Table.Chain.{lookup, is_some}
use pi_ssc_ssd_ssa.Table.Place.{IsTable}
use pi_ssc_ssd_ssa.Table.Insert.{Searched, find_hash_key-Searched}
use pi_ssc_ssd_ssa.Pi.Db.{Env}
use pi_ssc_ssd_ssa.Ssc.Db.{
  SscDb, lock, static_key, ssc_static_entry, ssc_local_add_addr, ssc_del_dyn_addr, ssc_add_dyn_addr,
  ssc_del_age_entry, ssc_del_vlan_addr, ssc_del_int_addr,
}
use pi_ssc_ssd_ssa.Ssc.Calls.{SscCall, ssc_call, ssc_calls}
use pi_ssc_ssd_ssa.Ssc.Store.{find_static-same}

module _ (H : Hlist Entry) where
  -- No call gets past a mutex that is held.
  pub ssc_call-blocked :
      (env : Env) (c : SscCall) (db : SscDb H) → db.locked ≡ true → ssc_call H env c db ≡ none
  unfolding ssc_call lock ssc_del_dyn_addr ssc_add_dyn_addr ssc_local_add_addr ssc_del_age_entry
      ssc_del_vlan_addr ssc_del_int_addr
  ssc_call-blocked env SscCall.del_dyn db h = rw h
  ssc_call-blocked env (SscCall.add_dyn e) db h = rw h
  ssc_call-blocked env (SscCall.local_add m) db h = rw h
  ssc_call-blocked env (SscCall.del_age e) db h = rw h
  ssc_call-blocked env (SscCall.del_vlan vlan) db h = rw h
  ssc_call-blocked env (SscCall.del_int phy_id) db h = rw h

  -- Let the mutex be free and the static table be in order, with no entry under the key of a
  -- static address. If there is no memory for it, the call that adds it returns, and every
  -- sequence of calls that is not empty, with memory or without, then waits for ever.
  pub ssc_local_add_addr-blocks :
      (env env' : Env) (m : StaticMac) (c : SscCall) (cs : List SscCall) (db : SscDb H)
      → db.locked ≡ false
      → IsTable H db.static_tbl
      → env.mem ≡ false
      → lookup (static_key m) (entries H db.static_tbl) ≡ none
      → (db' : SscDb H) × (ssc_local_add_addr H env m db ≡ some db')
        × (ssc_calls H env' (c ∷ cs) db' ≡ none)
  unfolding ssc_calls ssc_local_add_addr lock
  ssc_local_add_addr-blocks env env' m c cs db free v mem absent =
      let e = ssc_static_entry m in
      let index = hash_function env.junk m.mac m.vlan_id in
      let r = find_hash_key H index e db.static_tbl in
      let there : Searched H e db.static_tbl r =
        rw (hash-home env.junk m.mac m.vlan_id) (find_hash_key-Searched H e db.static_tbl v) in
      let miss : r.1 ≡ false = there.found ∙ ap is_some absent in
      let stuck = record db { static_tbl = r.0; locked = true } in
      (
        stuck,
        simp (free, find_static-same H index m db.static_tbl, miss, mem),
        rw (ssc_call-blocked env' c stuck refl) refl,
      )
