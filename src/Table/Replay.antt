-- ===== src/Table/Replay.antt =====
-- A table through any sequence of operations, as a function from the keys to the entries.
use pi_ssc_ssd_ssa.Common.{ℕ, ◌≡◌, refl, Bool, Option, none, some, List, [], ◌∷◌, if◌then◌else◌}
use mathlib.Core.Path.{fun_ext}
use pi_ssc_ssd_ssa.Public.{Entry, Key, key_of}
use pi_ssc_ssd_ssa.Public.Compare.{memcmp_key, IsPlain}
use pi_ssc_ssd_ssa.Hlist.{Hlist}
use pi_ssc_ssd_ssa.Table.{Table, entries, empty_table, insert_hash_table, del_hash_entry}
use pi_ssc_ssd_ssa.Table.Chain.{lookup, is_some, merge, discard, hits}
use pi_ssc_ssd_ssa.Table.Place.{IsTable, empty_table-IsTable, empty_table-entries}
use pi_ssc_ssd_ssa.Table.Insert.{insert_hash_table-Inserted}
use pi_ssc_ssd_ssa.Table.Delete.{exact, del_hash_entry-Deleted}

-- The operations, each with the unset bytes of its hash.
pub data TableOp : Type 0 where
  insert : ℕ → Entry → TableOp
  delete : ℕ → Entry → TableOp

-- What the callers take a table for: under each key an entry, or none. An operation gives the map
-- after it and its result.
abbrev pub Map : Type 0
Map = Key → Option Entry

abbrev pub no_entries : Map
no_entries q = none

abbrev pub map_op : TableOp → Map → Map × Bool
map_op (insert junk e) m =
    (λ q. if memcmp_key q e then some (merge e (m q)) else m q, is_some (m (key_of e)))
map_op (delete junk e) m = (λ q. discard (exact e) (m q), hits (exact e) (m (key_of e)))

-- All the results, in order, and the map at the end.
unfoldable pub map_ops : List TableOp → Map → Map × List Bool
map_ops [] m = (m, [])
map_ops (op ∷ ops) m =
    let (m1, ret) = map_op op m in let (m2, rets) = map_ops ops m1 in (m2, ret ∷ rets)

-- The addresses to delete have no zero byte among their first five.
abbrev pub Plain : List TableOp → Type 0
Plain [] = Unit
Plain (insert junk e ∷ ops) = Plain ops
Plain (delete junk e ∷ ops) = IsPlain e.mac × Plain ops

module _ (H : Hlist Entry) where
  abbrev pub table_op : TableOp → Table H → Table H × Bool
  table_op (insert junk e) t = insert_hash_table H junk e t
  table_op (delete junk e) t = del_hash_entry H junk e t

  unfoldable pub table_ops : List TableOp → Table H → Table H × List Bool
  table_ops [] t = (t, [])
  table_ops (op ∷ ops) t =
      let (t1, ret) = table_op op t in let (t2, rets) = table_ops ops t1 in (t2, ret ∷ rets)

  -- The table as a map.
  abbrev pub view : Table H → Map
  view t q = lookup q (entries H t)

  -- A table in order stands for a map.
  pub record Stands (t : Table H) (m : Map) : Type 0 where
    pub table : IsTable H t
    pub reads : view t ≡ m

  -- The operation on the table and the one on the map agree in what they leave and give.
  abbrev Agree : TableOp → Table H → Map → Type 0
  Agree op t m = Stands (table_op op t).0 (map_op op m).0 × ((table_op op t).1 ≡ (map_op op m).1)

  insert-Agree :
      (junk : ℕ) (e : Entry) (t : Table H) (m : Map) → Stands t m → Agree (insert junk e) t m
  insert-Agree junk e t m s =
      let i = insert_hash_table-Inserted H junk e t s.table in
      rw (← s.reads) (record { table = i.table; reads = fun_ext i.reads }, i.found)

  delete-Agree :
      (junk : ℕ) (e : Entry) (t : Table H) (m : Map)
      → Stands t m
      → IsPlain e.mac
      → Agree (delete junk e) t m
  delete-Agree junk e t m s p =
      let d = del_hash_entry-Deleted H junk e t s.table p in
      rw (← s.reads) (record { table = d.table; reads = fun_ext d.reads }, d.found)

  -- The same of a sequence of operations.
  abbrev AllAgree : List TableOp → Table H → Map → Type 0
  AllAgree ops t m =
      Stands (table_ops ops t).0 (map_ops ops m).0 × ((table_ops ops t).1 ≡ (map_ops ops m).1)

  ops-AllAgree :
      (ops : List TableOp) (t : Table H) (m : Map) → Stands t m → Plain ops → AllAgree ops t m
  unfolding table_ops map_ops
  ops-AllAgree [] t m s p = (s, refl)
  ops-AllAgree (insert junk e ∷ ops) t m s p =
      let (s1, ret) = insert-Agree junk e t m s in
      let (s2, rets) = ops-AllAgree ops _ _ s1 p in (s2, cc (ret, rets))
  ops-AllAgree (delete junk e ∷ ops) t m s (plain, p) =
      let (s1, ret) = delete-Agree junk e t m s plain in
      let (s2, rets) = ops-AllAgree ops _ _ s1 p in (s2, cc (ret, rets))

  -- Begin with an empty table, and let any sequence of insertions and deletions come, in which the
  -- addresses to delete have no zero byte among their first five, whatever the unset bytes of the
  -- hashes hold. Then each operation gives the result that the map gives, and the table stays in order
  -- and reads as the map, under each key.
  pub table_ops-replay :
      (ops : List TableOp)
      → Plain ops
      → let (t, rets) = table_ops ops (empty_table H) in
        let (m, map_rets) = map_ops ops no_entries in
        IsTable H t × ((q : Key) → lookup q (entries H t) ≡ m q) × (rets ≡ map_rets)
  unfolding lookup
  table_ops-replay ops p =
      let start : Stands (empty_table H) no_entries = record {
        table = empty_table-IsTable H;
        reads = fun_ext (λ q. rw (empty_table-entries H) refl);
      } in
      let (s, rets) = ops-AllAgree ops (empty_table H) no_entries start p in
      (s.table, λ q. rw (← s.reads) refl, rets)
