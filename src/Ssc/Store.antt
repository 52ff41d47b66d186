-- ===== src/Ssc/Store.antt =====
-- The SSC's own copy of the table code against that of pi.
use mathlib.Core.Path.{fun_ext}
use pi_ssc_ssd_ssa.Common.{ℕ, ◌≡◌, refl, inl, inr, true, false, some, if◌then◌else◌, Bool-cases}
use pi_ssc_ssd_ssa.Public.{Entry, StaticMac, key_of}
use pi_ssc_ssd_ssa.Public.Compare.{strncmp_key, memcmp_key, IsPlain, strncmp_key_plain}
use pi_ssc_ssd_ssa.Public.Hash.{hash_function}
use pi_ssc_ssd_ssa.Hlist.{Hlist}
use pi_ssc_ssd_ssa.Table.{Table, at, find_hash_key, insert_hash_table}
use pi_ssc_ssd_ssa.Pi.Db.{Env}
use pi_ssc_ssd_ssa.Ssc.Db.{
  SscDb, lock, unlock, find_hash_key_dyn, ssc_find_hash_key, link_entry, ssc_static_entry,
  ssc_add_dyn_addr, ssc_local_add_addr,
}

module _ (H : Hlist Entry) where
  -- pi's insertion is a search and, where that finds nothing, a new link.
  pub insert-link :
      (junk : ℕ) (e : Entry) (t : Table H)
      → let index = hash_function junk e.mac e.vlan_id in
        let r = find_hash_key H index e t in
        insert_hash_table H junk e t ≡ ((if r.1 then r.0 else link_entry H index e r.0), r.1)
  unfolding insert_hash_table link_entry
  insert-link junk e t =
      let index = hash_function junk e.mac e.vlan_id in
      let r = find_hash_key H index e t in
      elim (Bool-cases r.1) [
        | inl hit ↦ rw hit
        | inr miss ↦ rw miss (elim (Bool-cases (H.no_first (at H r.0 index))) [
          | inl bare ↦ rw bare
          | inr full ↦ rw full
        ])
      ]

  pub find_static-same :
      (index : ℕ) (m : StaticMac) (t : Table H)
      → ssc_find_hash_key H index m t ≡ find_hash_key H index (ssc_static_entry m) t
  unfolding ssc_find_hash_key find_hash_key
  find_static-same index m t = refl

  find_dyn-same :
      (index : ℕ) (e : Entry) (t : Table H)
      → IsPlain e.mac
      → find_hash_key_dyn H index e t ≡ find_hash_key H index e t
  unfolding find_hash_key_dyn find_hash_key
  find_dyn-same index e t p =
      let same : strncmp_key (key_of e) ≡ memcmp_key (key_of e) =
        fun_ext (λ a. strncmp_key_plain (key_of e) a p) in
      rw same

  -- With the mutex free and memory, the SSC stores a plain dynamic address as pi does.
  pub ssc_add_dyn_addr-insert :
      (env : Env) (e : Entry) (db : SscDb H)
      → db.locked ≡ false
      → env.mem ≡ true
      → IsPlain e.mac
      → ssc_add_dyn_addr H env e db
        ≡ some
            (record db { dyn_tbl = (insert_hash_table H env.junk e db.dyn_tbl).0; locked = false })
  unfolding ssc_add_dyn_addr lock unlock
  ssc_add_dyn_addr-insert env e db free mem p =
      let index = hash_function env.junk e.mac e.vlan_id in
      let r = find_hash_key H index e db.dyn_tbl in
      elim (Bool-cases r.1) [
        | inl hit ↦
            simp (free, find_dyn-same index e db.dyn_tbl p, hit, insert-link env.junk e db.dyn_tbl)
        | inr miss ↦
            simp (
              free,
              mem,
              find_dyn-same index e db.dyn_tbl p,
              miss,
              insert-link env.junk e db.dyn_tbl,
            )
      ]

  -- With the mutex free and memory, the SSC stores a static address as pi does.
  pub ssc_local_add_addr-insert :
      (env : Env) (m : StaticMac) (db : SscDb H)
      → db.locked ≡ false
      → env.mem ≡ true
      → ssc_local_add_addr H env m db
        ≡ some (record db {
          static_tbl = (insert_hash_table H env.junk (ssc_static_entry m) db.static_tbl).0;
          locked = false;
        })
  unfolding ssc_local_add_addr lock unlock
  ssc_local_add_addr-insert env m db free mem =
      let index = hash_function env.junk m.mac m.vlan_id in
      let r = find_hash_key H index (ssc_static_entry m) db.static_tbl in
      elim (Bool-cases r.1) [
        | inl hit ↦ simp (
          free,
          find_static-same index m db.static_tbl,
          hit,
          insert-link env.junk (ssc_static_entry m) db.static_tbl,
        )
        | inr miss ↦ simp (
          free,
          mem,
          find_static-same index m db.static_tbl,
          miss,
          insert-link env.junk (ssc_static_entry m) db.static_tbl,
        )
      ]
