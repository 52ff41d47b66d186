-- ===== src/Ssc/Invariant.antt =====
-- The calls on the database of the SSC keep it in order.
use pi_ssc_ssd_ssa.Common.{
  ◌≡◌, refl, sym, ◌∙◌, inl, inr, Bool, true, false, Option, some, List, [], ◌∷◌, arith, Bool-cases,
  ◌==◌, is_nil-nil, set, ==_iff,
}
use pi_ssc_ssd_ssa.Public.{Entry, StaticMac, Key, key_of}
use pi_ssc_ssd_ssa.Public.Compare.{strncmp_key, memcmp_key, strncmp-of-memcmp}
use pi_ssc_ssd_ssa.Public.Hash.{hash-home, home, home-lt}
use pi_ssc_ssd_ssa.Hlist.{Hlist}
use pi_ssc_ssd_ssa.Hlist.Loops.{change_first, any, change_loop, change_loop-walk}
use pi_ssc_ssd_ssa.Table.{Table, at, entries, move_port}
use pi_ssc_ssd_ssa.Table.Chain.{lookup, is_some, count-change_first, any-lookup, change_first_miss}
use pi_ssc_ssd_ssa.Table.Clear.{clear_table, clear_table-IsTable}
use pi_ssc_ssd_ssa.Table.Place.{IsTable, lookup-home, lookup-set, set-IsTable, empty_table-IsTable}
use pi_ssc_ssd_ssa.Table.Insert.{insert_hash_table-Inserted, link_both}
use pi_ssc_ssd_ssa.Pi.Db.{Env}
use pi_ssc_ssd_ssa.Ssc.Db.{
  SscDb, lock, unlock, ssc_static_entry, find_hash_key_dyn, link_entry, ssc_local_add_addr,
  ssc_del_dyn_addr, ssc_add_dyn_addr, ssc_del_age_entry, ssc_del_vlan_addr, ssc_del_int_addr,
  any_entry, in_vlan, on_port, no_count, ssc_db_init,
}
use pi_ssc_ssd_ssa.Ssc.Age.{ssc_del_age_entry-Aged}
use pi_ssc_ssd_ssa.Ssc.Calls.{SscCall, ssc_call, ssc_calls}
use pi_ssc_ssd_ssa.Ssc.Store.{ssc_local_add_addr-insert}

any-weaker :
    (p q : Entry → Bool)
    → ((a : Entry) → p a ≡ true → q a ≡ true)
    → (l : List Entry) → any q l ≡ false
    → any p l ≡ false
unfolding any
any-weaker p q h [] f = refl
any-weaker p q h (a ∷ l) f = ground (arith, h a, any-weaker p q h l)

module _ (H : Hlist Entry) where
  open H use {Head, walk}

  -- Both tables are in order and the mutex is free.
  pub record IsSscDb (db : SscDb H) : Type 0 where
    pub static_table : IsTable H db.static_tbl
    pub dyn_table : IsTable H db.dyn_tbl
    pub free : db.locked ≡ false

  -- The search by strncmp moves ports within a chain, which leaves the table in order; where it
  -- finds nothing, the result has nothing under the key.
  find_hash_key_dyn-IsTable :
      (e : Entry) (t : Table H)
      → IsTable H t
      → let r = find_hash_key_dyn H (home (key_of e)) e t in
        IsTable H r.0 × (r.1 ≡ false → is_some (lookup (key_of e) (entries H r.0)) ≡ false)
  unfolding find_hash_key_dyn
  find_hash_key_dyn-IsTable e t v = elim (Bool-cases (H.no_first h)) [
    | inl bare ↦ rw bare (
      v,
      λ f.
          rw ((lookup-home H t k v).0, is_nil-nil (walk h) (sym (H.no_first-walk h) ∙ bare))
            (unfold lookup in refl),
    )
    | inr full ↦ rw full (table, nothing)
  ]
    where
      k : Key
      k = key_of e

      p : Entry → Bool
      p = strncmp_key k

      h : Head
      h = at H t (home k)

      r : Head × Bool
      r = change_loop H p (move_port e.port_id) 0 (walk h) h

      w : (walk r.0 ≡ change_first p (move_port e.port_id) (walk h)) × (r.1 ≡ any p (walk h))
      w = change_loop-walk H p (move_port e.port_id) h

      table : IsTable H (set t (home k) r.0)
      table =
          set-IsTable H t (home k) r.0 v (home-lt k)
            (λ q. rw (w.0, count-change_first q p e.port_id (walk h)) (v.fits q (home k)))

      nothing : r.1 ≡ false → is_some (lookup k (entries H (set t (home k) r.0))) ≡ false
      nothing f =
          let miss : any p (walk h) ≡ false = sym w.1 ∙ f in
          let none_there : any (memcmp_key k) (walk h) ≡ false =
            any-weaker (memcmp_key k) p (strncmp-of-memcmp k) (walk h) miss in
          let same : walk r.0 ≡ walk h =
            w.0 ∙ change_first_miss p (move_port e.port_id) (walk h) miss in
          let here = lookup-set H t (home k) r.0 k v table (home-lt k) in
          let look = any-lookup k (walk h) in
          let eq : (home k == home k) ≡ true = (==_iff (home k) (home k)).1 refl in
          rw (here, eq, same) (sym look ∙ none_there)

  -- A new entry goes into a table that has nothing under its key.
  link_entry-IsTable :
      (e : Entry) (t : Table H)
      → IsTable H t
      → is_some (lookup (key_of e) (entries H t)) ≡ false
      → IsTable H (link_entry H (home (key_of e)) e t)
  unfolding link_entry
  link_entry-IsTable e t v absent =
      let h = at H t (home (key_of e)) in
      let l = (link_both H e t v absent).table in
      elim (Bool-cases (H.no_first h)) [
        | inl bare ↦ rw bare (rw bare at l)
        | inr full ↦ rw full (rw full at l)
      ]

  -- A result of a call whose mutex is given back, with both tables in order.
  released : (d : SscDb H) → IsTable H d.static_tbl → IsTable H d.dyn_tbl → IsSscDb (unlock H d)
  unfolding unlock
  released d s t = record { static_table = s; dyn_table = t; free = refl }

  -- The calls that delete: the mutex is free again, and only the dynamic table changes.
  deleted :
      (f : Table H → Table H)
      → ((t : Table H) → IsTable H t → IsTable H (f t))
      → (db : SscDb H) → IsSscDb db
      → IsSscDb (unlock H (record db { dyn_tbl = f db.dyn_tbl; locked = true }))
  deleted f keep db v = released _ v.static_table (keep db.dyn_tbl v.dyn_table)

  -- A call returns, with the mutex given back and both tables in order.
  abbrev pub Returns : Option (SscDb H) → Type 0
  Returns o = (db' : SscDb H) × (o ≡ some db') × IsSscDb db'

  add_dyn-Returns :
      (env : Env) (e : Entry) (db : SscDb H)
      → env.mem ≡ true
      → IsSscDb db
      → Returns (ssc_add_dyn_addr H env e db)
  unfolding ssc_add_dyn_addr lock unlock
  add_dyn-Returns env e db m v =
      let r = find_hash_key_dyn H (home (key_of e)) e db.dyn_tbl in
      let w = find_hash_key_dyn-IsTable e db.dyn_tbl v.dyn_table in
      elim (Bool-cases r.1) [
        | inl hit ↦ (
          record db { dyn_tbl = r.0; locked = false },
          simp (v.free, hash-home env.junk e.mac e.vlan_id, hit),
          record { static_table = v.static_table; dyn_table = w.0; free = refl },
        )
        | inr miss ↦ (
          record db { dyn_tbl = link_entry H (home (key_of e)) e r.0; locked = false },
          simp (v.free, m, hash-home env.junk e.mac e.vlan_id, miss),
          record {
            static_table = v.static_table;
            dyn_table = (link_entry-IsTable e r.0 w.0 (w.1 miss));
            free = refl;
          },
        )
      ]

  local_add-Returns :
      (env : Env) (a : StaticMac) (db : SscDb H)
      → env.mem ≡ true
      → IsSscDb db
      → Returns (ssc_local_add_addr H env a db)
  local_add-Returns env a db m v = (
    _,
    ssc_local_add_addr-insert H env a db v.free m,
    record {
      static_table =
          (insert_hash_table-Inserted H env.junk (ssc_static_entry a) db.static_tbl
            v.static_table).table;
      dyn_table = v.dyn_table;
      free = refl;
    },
  )

  del_age-Returns :
      (env : Env) (e : Entry) (db : SscDb H) → IsSscDb db → Returns (ssc_del_age_entry H env e db)
  del_age-Returns env e db v =
      let (t, run, aged) = ssc_del_age_entry-Aged H env e db v.free v.dyn_table in
      (_, run, record { static_table = v.static_table; dyn_table = aged.table; free = refl })

  -- A call on a database in order with the mutex free, given memory, returns, and gives the mutex
  -- back with both tables in order.
  pub ssc_call-IsSscDb :
      (env : Env) (c : SscCall) (db : SscDb H)
      → env.mem ≡ true
      → IsSscDb db
      → Returns (ssc_call H env c db)
  unfolding ssc_call lock unlock ssc_del_dyn_addr ssc_del_vlan_addr ssc_del_int_addr
  ssc_call-IsSscDb env SscCall.del_dyn db m v = rw v.free (
    _,
    refl,
    deleted (λ t. (clear_table H any_entry no_count t tt).0)
        (λ t w. clear_table-IsTable H any_entry no_count t tt w) db v,
  )
  ssc_call-IsSscDb env (SscCall.del_vlan vlan) db m v = rw v.free (
    _,
    refl,
    deleted (λ t. (clear_table H (in_vlan vlan) no_count t tt).0)
        (λ t w. clear_table-IsTable H (in_vlan vlan) no_count t tt w) db v,
  )
  ssc_call-IsSscDb env (SscCall.del_int phy_id) db m v = rw v.free (
    _,
    refl,
    deleted (λ t. (clear_table H (on_port phy_id) no_count t tt).0)
        (λ t w. clear_table-IsTable H (on_port phy_id) no_count t tt w) db v,
  )
  ssc_call-IsSscDb env (SscCall.add_dyn e) db m v = add_dyn-Returns env e db m v
  ssc_call-IsSscDb env (SscCall.local_add e) db m v = local_add-Returns env e db m v
  ssc_call-IsSscDb env (SscCall.del_age e) db m v = del_age-Returns env e db v

  -- Given memory, any sequence of calls on a database in order with the mutex free comes to its end,
  -- with both tables in order and the mutex free.
  pub ssc_calls-IsSscDb :
      (env : Env) (cs : List SscCall) (db : SscDb H)
      → env.mem ≡ true
      → IsSscDb db
      → Returns (ssc_calls H env cs db)
  unfolding ssc_calls
  ssc_calls-IsSscDb env [] db m v = (db, refl, v)
  ssc_calls-IsSscDb env (c ∷ cs) db m v =
      let (db', run, v') = ssc_call-IsSscDb env c db m v in
      rw run (ssc_calls-IsSscDb env cs db' m v')

  -- The start gives a database in order.
  pub ssc_db_init-IsSscDb : (db : SscDb H) → IsSscDb (ssc_db_init H db)
  unfolding ssc_db_init
  ssc_db_init-IsSscDb db = record {
    static_table = empty_table-IsTable H;
    dyn_table = empty_table-IsTable H;
    free = refl;
  }
