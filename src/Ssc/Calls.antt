-- ===== src/Ssc/Calls.antt =====
-- The calls on the database of the SSC, one after the other.
use pi_ssc_ssd_ssa.Common.{◌>>=◌, ℕ, Option, some, List, [], ◌∷◌}
use pi_ssc_ssd_ssa.Public.{Entry, StaticMac}
use pi_ssc_ssd_ssa.Hlist.{Hlist}
use pi_ssc_ssd_ssa.Pi.Db.{Env}
use pi_ssc_ssd_ssa.Ssc.Db.{
  SscDb, ssc_del_dyn_addr, ssc_add_dyn_addr, ssc_local_add_addr, ssc_del_age_entry,
  ssc_del_vlan_addr, ssc_del_int_addr,
}

-- The calls that the threads of the SSC make, with their arguments.
pub data SscCall : Type 0 where
  del_dyn : SscCall
  add_dyn : Entry → SscCall
  local_add : StaticMac → SscCall
  del_age : Entry → SscCall
  del_vlan : ℕ → SscCall
  del_int : ℕ → SscCall

module _ (H : Hlist Entry) (env : Env) where
  unfoldable pub ssc_call : SscCall → SscDb H → Option (SscDb H)
  ssc_call del_dyn db = ssc_del_dyn_addr H db
  ssc_call (add_dyn e) db = ssc_add_dyn_addr H env e db
  ssc_call (local_add m) db = ssc_local_add_addr H env m db
  ssc_call (del_age e) db = ssc_del_age_entry H env e db
  ssc_call (del_vlan vlan) db = ssc_del_vlan_addr H vlan db
  ssc_call (del_int phy_id) db = ssc_del_int_addr H phy_id db

  unfoldable pub ssc_calls : List SscCall → SscDb H → Option (SscDb H)
  ssc_calls [] db = some db
  ssc_calls (c ∷ cs) db = ssc_call c db >>= ssc_calls cs
