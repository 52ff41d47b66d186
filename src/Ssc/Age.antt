-- ===== src/Ssc/Age.antt =====
-- `ssc_del_age_entry`: which addresses the SSC keeps.
use pi_ssc_ssd_ssa.Common.{
  ◌≡◌, ◌≤◌, refl, sym, ◌∙◌, ap, inl, inr, true, false, none, some, [], arith, ◌==◌, set, is_nil-nil,
  Bool-cases, Option-cases, ==_iff,
}
use pi_ssc_ssd_ssa.Public.{Entry, Key, key_of}
use pi_ssc_ssd_ssa.Public.Compare.{memcmp_key}
use pi_ssc_ssd_ssa.Public.Hash.{hash-home, home, home-lt}
use pi_ssc_ssd_ssa.Hlist.{Hlist}
use pi_ssc_ssd_ssa.Hlist.Loops.{remove_all, clear_loop, clear_loop-walk}
use pi_ssc_ssd_ssa.Table.{Table, at, entries}
use pi_ssc_ssd_ssa.Table.Chain.{
  lookup, count, discard, lookup-key, lookup-remove_all, count-remove_all,
}
use pi_ssc_ssd_ssa.Table.Place.{IsTable, home_same, lookup-home, lookup-set, set-IsTable}
use pi_ssc_ssd_ssa.Pi.Db.{Env}
use pi_ssc_ssd_ssa.Ssc.Db.{SscDb, lock, unlock, no_count, ssc_del_age_entry}

module _ (H : Hlist Entry) where
  open H use {Head, walk}

  -- A key at home in another chain is none that the test can take.
  discard_away :
      (q k : Key) (t : Table H)
      → (home k == home q) ≡ false
      → discard (memcmp_key k) (lookup q (entries H t)) ≡ lookup q (entries H t)
  discard_away q k t away = elim (Option-cases (lookup q (entries H t))) [
    | inl gone ↦ rw gone refl
    | inr (a, found) ↦
        let at_q = home_same q a (lookup-key q (entries H t) a found) in
        elim (Bool-cases (memcmp_key k a)) [
          | inl same ↦ absurd (let at_k = home_same k a same in ground arith)
          | inr other ↦ rw (found, other) refl
        ]
  ]

  chain_of :
      (k q : Key) (t : Table H)
      → IsTable H t
      → (home k == home q) ≡ true
      → lookup q (entries H t) ≡ lookup q (walk (at H t (home k)))
  chain_of k q t v here = rw ((==_iff (home k) (home q)).0 here) (lookup-home H t q v).0

  -- What the loop over the chain of a key leaves of a table.
  pub record Aged (k : Key) (t t' : Table H) : Type 0 where
    pub table : IsTable H t'
    pub reads :
        (q : Key) → lookup q (entries H t') ≡ discard (memcmp_key k) (lookup q (entries H t))

  bare-Aged : (k : Key) (t : Table H) → IsTable H t → walk (at H t (home k)) ≡ [] → Aged k t t
  unfolding lookup
  bare-Aged k t v bare = record {
    table = v;
    reads = λ q. elim (Bool-cases (home k == home q)) [
      | inl here ↦
          let none_there : lookup q (walk (at H t (home k))) ≡ none = rw bare refl in
          let gone = chain_of k q t v here ∙ none_there in rw gone refl
      | inr away ↦ sym (discard_away q k t away)
    ];
  }

  set-Aged :
      (k : Key) (t : Table H) (h : Head)
      → IsTable H t
      → walk h ≡ remove_all (memcmp_key k) (walk (at H t (home k)))
      → Aged k t (set t (home k) h)
  set-Aged k t h v w = record { table = table; reads = reads }
    where
      chain-count : (q : Key) → count q (walk (at H t (home k))) ≤ 1
      chain-count q = ground (arith, v.fits q (home k))

      table : IsTable H (set t (home k) h)
      table = set-IsTable H t (home k) h v (home-lt k) (λ q. rw w (
          omega
            (arith, count-remove_all q (memcmp_key k) (walk (at H t (home k))), v.fits q (home k))))

      reads :
          (q : Key)
          → lookup q (entries H (set t (home k) h))
            ≡ discard (memcmp_key k) (lookup q (entries H t))
      reads q =
          let new = lookup-set H t (home k) h q v table (home-lt k) in
          elim (Bool-cases (home k == home q)) [
            | inl here ↦
                let c =
                  lookup-remove_all q (memcmp_key k) (walk (at H t (home k))) (chain-count q) in
                rw (new, here, w) (c ∙ ap (discard (memcmp_key k)) (sym (chain_of k q t v here)))
            | inr away ↦ rw (new, away) (sym (discard_away q k t away))
          ]

  -- With the mutex free and the dynamic table in order, the call returns with the mutex free and
  -- the static table as it was; the address under the key of the notice is gone, whatever its port,
  -- no other dynamic address has changed, and the dynamic table is in order.
  pub ssc_del_age_entry-Aged :
      (env : Env) (e : Entry) (db : SscDb H)
      → db.locked ≡ false
      → IsTable H db.dyn_tbl
      → (t : Table H) × (ssc_del_age_entry H env e db
          ≡ some (record db { dyn_tbl = t; locked = false }))
        × Aged (key_of e) db.dyn_tbl t
  unfolding ssc_del_age_entry lock unlock
  ssc_del_age_entry-Aged env e db free v =
      let k = key_of e in
      let h = at H db.dyn_tbl (home k) in
      let h' = (clear_loop H (memcmp_key k) no_count 0 (walk h) h tt).0 in
      elim (Bool-cases (H.no_first h)) [
        | inl bare ↦ (
          db.dyn_tbl,
          simp (free, hash-home env.junk e.mac e.vlan_id, bare),
          bare-Aged k db.dyn_tbl v (is_nil-nil (walk h) (sym (H.no_first-walk h) ∙ bare)),
        )
        | inr full ↦ (
          set db.dyn_tbl (home k) h',
          simp (free, hash-home env.junk e.mac e.vlan_id, full),
          set-Aged k db.dyn_tbl h' v (clear_loop-walk H (memcmp_key k) no_count h tt).0,
        )
      ]
