-- ===== src/Ssc/Upload.antt =====
-- The synchronisation of the SSC with the management process, from both sides.
use mathlib.Core.List.{append_assoc, append-nil, map-append}
use pi_ssc_ssd_ssa.Common.{
  ◌≡◌, refl, sym, ◌∙◌, ap, inl, inr, Bool, true, Option, none, some, List, [], ◌∷◌, ◌++◌, map,
  arith, flatten, if◌then◌else◌, Bool-cases, is_nil-nil, if_both, count_if, ◌≤◌,
}
use pi_ssc_ssd_ssa.Public.{Entry, Key}
use pi_ssc_ssd_ssa.Public.Compare.{memcmp_key}
use pi_ssc_ssd_ssa.Public.Message.{Msg, message, msgid_ing, DsInfo, ds_info, ds_static, ds_dyn}
use pi_ssc_ssd_ssa.Hlist.{Hlist}
use pi_ssc_ssd_ssa.Table.{Table, entries}
use pi_ssc_ssd_ssa.Table.Chain.{lookup, merge, count, lookup-none}
use pi_ssc_ssd_ssa.Pi.Db.{Env, Db, IsDb}
use pi_ssc_ssd_ssa.Table.Insert.{insert_hash_table-Inserted}
use pi_ssc_ssd_ssa.Pi.Local.{add_static, add_dyn}
use pi_ssc_ssd_ssa.Pi.Handlers.{
  Pi, deal_msg, ds_ing_of, pi_deal_ds_ing, deal_static_info, deal_dyn_info, pi_add_local_dyn,
}
use pi_ssc_ssd_ssa.Pi.Invariant.{pi_deal_ds_ing-IsDb}
use pi_ssc_ssd_ssa.Pi.Learn.{dyn_at}
use pi_ssc_ssd_ssa.Pi.Order.{deal_all}
use pi_ssc_ssd_ssa.Ssc.Comm.{Ssc, ssc_send_msg_pi}
use pi_ssc_ssd_ssa.Ssc.Sync.{send_up, send_chain, send_table}

-- The message that carries an entry.
abbrev pub up : (Entry → DsInfo) → Entry → Msg
up f e = message msgid_ing (ds_info (f e))

-- What an upload leaves under a key: an address that is sent gives its port to one that is there.
abbrev pub overlay : Option Entry → Option Entry → Option Entry
overlay none o = o
overlay (some a) o = some (merge a o)

module _ (H : Hlist Entry) where
  static_dyn :
      (env : Env) (e : Entry) (db : Db H)
      → (pi_deal_ds_ing H env (ds_static e) db).dyn_tbl ≡ db.dyn_tbl
  unfolding pi_deal_ds_ing deal_static_info add_static
  static_dyn env e db = if_both (λ (d : Db H). d.dyn_tbl ≡ db.dyn_tbl) env.mem _ _ refl refl

  -- Messages more that were written to the socket.
  abbrev pub sent : List Msg → Ssc H → Ssc H
  sent ms s = record s { to_pi = s.to_pi ++ ms }

  sent-nil : (s : Ssc H) → s ≡ sent [] s
  sent-nil s = ap (λ (l : List Msg). record s { to_pi = l }) (sym (append-nil s.to_pi))

  pub sent-sent : (ms ns : List Msg) (s : Ssc H) → sent ns (sent ms s) ≡ sent (ms ++ ns) s
  sent-sent ms ns s = ap (λ (l : List Msg). record s { to_pi = l }) (append_assoc s.to_pi ms ns)

  module _ (env : Env) (mem : env.mem ≡ true) where
    pub send_up-sent :
        (d : DsInfo) (s : Ssc H) → send_up H env d s ≡ sent (message msgid_ing (ds_info d) ∷ []) s
    unfolding send_up ssc_send_msg_pi
    send_up-sent d s = rw mem refl

    send_chain-sent :
        (f : Entry → DsInfo) (es : List Entry) (s : Ssc H)
        → send_chain H env f es s ≡ sent (map (up f) es) s
    unfolding send_chain
    send_chain-sent f [] s = sent-nil s
    send_chain-sent f (e ∷ es) s =
        ap (send_chain H env f es) (send_up-sent (f e) s)
        ∙ send_chain-sent f es (sent (up f e ∷ []) s)
        ∙ sent-sent (up f e ∷ []) (map (up f) es) s

    -- One chain, by the code's test for an empty one.
    send_head-sent :
        (f : Entry → DsInfo) (h : H.Head) (s : Ssc H)
        → (if H.no_first h then s else send_chain H env f (H.walk h) s)
          ≡ sent (map (up f) (H.walk h)) s
    send_head-sent f h s = elim (Bool-cases (H.no_first h)) [
      | inl bare ↦
          let none_there = is_nil-nil (H.walk h) (sym (H.no_first-walk h) ∙ bare) in
          rw (bare, none_there) (sent-nil s)
      | inr full ↦ rw full (send_chain-sent f (H.walk h) s)
    ]

    -- The table goes up entry by entry.
    pub send_table-sent :
        (f : Entry → DsInfo) (t : Table H) (s : Ssc H)
        → send_table H env f t s ≡ sent (map (up f) (entries H t)) s
    unfolding send_table entries flatten
    send_table-sent f [] s = sent-nil s
    send_table-sent f (h ∷ t) s =
        ap (send_table H env f t) (send_head-sent f h s)
        ∙ send_table-sent f t (sent (map (up f) (H.walk h)) s)
        ∙ sent-sent (map (up f) (H.walk h)) (map (up f) (entries H t)) s
        ∙ ap (λ l. sent l s) (sym (map-append (up f) (H.walk h) (entries H t)))

  -- The other side: a batch of addresses is handled, one message after the other.
  pub record Loaded (l : List Entry) (pi : Pi H) (r : Option (Pi H)) : Type 0 where
    pub pi' : Pi H
    pub run : r ≡ some pi'
    pub ok : IsDb H pi'.db
    pub reads : (q : Key) → dyn_at H q pi'.db ≡ overlay (lookup q l) (dyn_at H q pi.db)

  module _ (env : Env) (create : Bool) where
    -- The static addresses leave the dynamic table as it was.
    pub load_static :
        (l : List Entry) (pi : Pi H)
        → IsDb H pi.db
        → Loaded [] pi (deal_all (deal_msg H env create) (map (up ds_static) l) pi)
    unfolding deal_all deal_msg ds_ing_of lookup
    load_static [] pi v = record { pi' = pi; run = refl; ok = v; reads = λ q. refl }
    load_static (e ∷ l) pi v =
        let s = record pi { db = pi_deal_ds_ing H env (ds_static e) pi.db } in
        let rest = load_static l s (pi_deal_ds_ing-IsDb H env (ds_static e) pi.db v) in
        let same : (pi_deal_ds_ing H env (ds_static e) pi.db).dyn_tbl ≡ pi.db.dyn_tbl =
          static_dyn env e pi.db in
        record {
          pi' = rest.pi';
          run = rest.run;
          ok = rest.ok;
          reads = λ q. rest.reads q ∙ ap (λ t. lookup q (entries H t)) same;
        }

    -- The dynamic addresses, of which no two have one key, are added or given their ports.
    pub load_dyn :
        env.mem ≡ true
        → (l : List Entry) (pi : Pi H) → IsDb H pi.db
        → ((q : Key) → count q l ≤ 1)
        → Loaded l pi (deal_all (deal_msg H env create) (map (up ds_dyn) l) pi)
    unfolding deal_all deal_msg ds_ing_of lookup count count_if pi_deal_ds_ing deal_dyn_info
        pi_add_local_dyn add_dyn
    load_dyn mem [] pi v one = record { pi' = pi; run = refl; ok = v; reads = λ q. refl }
    load_dyn mem (e ∷ l) pi v one =
        let s = record pi { db = pi_deal_ds_ing H env (ds_dyn e) pi.db } in
        let rest =
          load_dyn mem l s (pi_deal_ds_ing-IsDb H env (ds_dyn e) pi.db v)
            (λ q. ground (arith, one q)) in
        let ins = insert_hash_table-Inserted H env.junk e pi.db.dyn_tbl v.dyn_table in
        record {
          pi' = rest.pi';
          run = rest.run;
          ok = rest.ok;
          reads = λ q.
              let step : dyn_at H q s.db ≡ (
                  if memcmp_key q e then some (merge e (dyn_at H q pi.db)) else dyn_at H q pi.db) =
                rw mem (ins.reads q) in
              let few = one q in
              rest.reads q ∙ elim (Bool-cases (memcmp_key q e)) [
                | inl same ↦
                    let last : count q l ≡ 0 = ground arith in
                    rw (lookup-none q l last, step, same) refl
                | inr other ↦ rw (step, other) refl
              ];
        }
