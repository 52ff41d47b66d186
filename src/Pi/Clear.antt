-- ===== src/Pi/Clear.antt =====
-- What the clearing operations do to the database of the management process.
use pi_ssc_ssd_ssa.Common.{
  ℕ, ◌%◌, ◌≡◌, refl, ◌∙◌, inl, inr, Bool, none, List, arith, ◌==◌, length, count_if, if◌then◌else◌,
  Bool-cases, Option-cases,
}
use pi_ssc_ssd_ssa.Public.{Entry, Key, u32_mod}
use pi_ssc_ssd_ssa.Public.Compare.{memcmp_key}
use pi_ssc_ssd_ssa.Public.Message.{msgid_mac_clear_dyn, msgid_clear_vlan_mac}
use pi_ssc_ssd_ssa.Hlist.{Hlist}
use pi_ssc_ssd_ssa.Hlist.Loops.{remove_all}
use pi_ssc_ssd_ssa.Table.{Table, entries}
use pi_ssc_ssd_ssa.Table.Chain.{lookup, discard, length-remove_all, lookup-remove_all, lookup-key}
use pi_ssc_ssd_ssa.Table.Place.{IsTable, lookup-home}
use pi_ssc_ssd_ssa.Table.Clear.{clear_table, clear_table-entries, clear_table-IsTable}
use pi_ssc_ssd_ssa.Pi.Db.{Db, IsDb, dec32, repeat-dec32}
use pi_ssc_ssd_ssa.Pi.Local.{call_clear_local_mac, clear_vlan_mac}

module _ (H : Hlist Entry) where
  -- A count that goes down for each hit stays the number of entries.
  clear_table-count :
      (p : Entry → Bool) (t : Table H) (n : ℕ)
      → n ≡ length (entries H t) % u32_mod
      → (clear_table H p dec32 t n).1 ≡ length (entries H (clear_table H p dec32 t n).0) % u32_mod
  clear_table-count p t n e =
      let c = clear_table-entries H p dec32 t n in
      rw (c.0, c.1, e, ← length-remove_all p (entries H t))
        (repeat-dec32 (count_if p (entries H t)) (length (remove_all p (entries H t))))

  -- The entries that pass `fun` are gone from the dynamic table, and from the static one unless the
  -- message asked for dynamic addresses only. The rest of the database is as before.
  pub record Cleared (type : ℕ) (fun : Entry → Bool) (db db' : Db H) : Type 0 where
    pub valid : IsDb H db'
    pub dyn : entries H db'.dyn_tbl ≡ remove_all fun (entries H db.dyn_tbl)
    pub static : entries H db'.static_tbl ≡ (
        if type == msgid_mac_clear_dyn
        then entries H db.static_tbl
        else remove_all fun (entries H db.static_tbl))
    pub age : db'.age_time ≡ db.age_time
    pub ports : db'.port_status ≡ db.port_status

  pub call_clear_local_mac-Cleared :
      (type : ℕ) (fun : Entry → Bool) (db : Db H)
      → IsDb H db
      → Cleared type fun db (call_clear_local_mac H type fun db)
  unfolding call_clear_local_mac
  call_clear_local_mac-Cleared type fun db v =
      let dyn = clear_table-entries H fun dec32 db.dyn_tbl db.dyn_addr_count in
      let stat = clear_table-entries H fun dec32 db.static_tbl db.static_addr_count in
      let dyn_table = clear_table-IsTable H fun dec32 db.dyn_tbl db.dyn_addr_count v.dyn_table in
      let static_table =
        clear_table-IsTable H fun dec32 db.static_tbl db.static_addr_count v.static_table in
      let dyn_count = clear_table-count fun db.dyn_tbl db.dyn_addr_count v.dyn_count in
      let static_count = clear_table-count fun db.static_tbl db.static_addr_count v.static_count in
      elim (Bool-cases (type == msgid_mac_clear_dyn)) [
        | inl only ↦ rw only (record {
          valid = record {
            static_table = v.static_table;
            dyn_table = dyn_table;
            static_count = v.static_count;
            dyn_count = dyn_count;
            ports = v.ports;
          };
          dyn = dyn.0;
          static = rw only refl;
          age = refl;
          ports = refl;
        })
        | inr both ↦ rw both (record {
          valid = record {
            static_table = static_table;
            dyn_table = dyn_table;
            static_count = static_count;
            dyn_count = dyn_count;
            ports = v.ports;
          };
          dyn = dyn.0;
          static = rw both stat.0;
          age = refl;
          ports = refl;
        })
      ]

  -- In a table in order, clearing leaves under each key what does not pass the test.
  pub lookup-cleared :
      (q : Key) (p : Entry → Bool) (t t' : Table H)
      → IsTable H t
      → entries H t' ≡ remove_all p (entries H t)
      → lookup q (entries H t') ≡ discard p (lookup q (entries H t))
  lookup-cleared q p t t' v e = rw e (lookup-remove_all q p (entries H t) (lookup-home H t q v).1)

  discard_vlan :
      (q : Key) (vlan : ℕ) (l : List Entry)
      → discard (clear_vlan_mac vlan) (lookup q l)
        ≡ (if q.vlan_id == vlan then none else lookup q l)
  unfolding clear_vlan_mac memcmp_key
  discard_vlan q vlan l = elim (Option-cases (lookup q l)) [
    | inl gone ↦ rw gone (ground arith)
    | inr (a, there) ↦ rw there (ground (arith, lookup-key q l a there))
  ]

  -- Clearing a VLAN takes every address of that VLAN out of both tables, and no other address.
  pub clear_vlan_lookup :
      (vlan : ℕ) (db : Db H) (q : Key)
      → IsDb H db
      → let db' = call_clear_local_mac H msgid_clear_vlan_mac (clear_vlan_mac vlan) db in
        (lookup q (entries H db'.dyn_tbl)
          ≡ (if q.vlan_id == vlan then none else lookup q (entries H db.dyn_tbl)))
        × (lookup q (entries H db'.static_tbl)
            ≡ (if q.vlan_id == vlan then none else lookup q (entries H db.static_tbl)))
  clear_vlan_lookup vlan db q v =
      let c = call_clear_local_mac-Cleared msgid_clear_vlan_mac (clear_vlan_mac vlan) db v in
      (
        lookup-cleared q _ _ _ v.dyn_table c.dyn ∙ discard_vlan q vlan _,
        lookup-cleared q _ _ _ v.static_table c.static ∙ discard_vlan q vlan _,
      )
