-- ===== src/Table/Delete.antt =====
-- `del_hash_entry`: it compares addresses by `strncmp`, which stops at a zero byte.
use mathlib.Core.Path.{fun_ext}
use pi_ssc_ssd_ssa.Common.{
  ℕ, ◌+◌, ◌≤◌, ◌<◌, ◌≡◌, sym, ◌∙◌, inl, inr, Bool, true, false, ◌&&◌, List, [], arith, ◌==◌, length,
  is_nil-nil, set, if◌then◌else◌, Bool-cases, Option-cases,
}
use pi_ssc_ssd_ssa.Public.{Entry, Key, key_of, hash_size}
use pi_ssc_ssd_ssa.Public.Compare.{memcmp_key, memcmp_key_congr, IsPlain, strncmp_key_plain}
use pi_ssc_ssd_ssa.Public.Hash.{home, home-lt, hash-home}
use pi_ssc_ssd_ssa.Hlist.{Hlist}
use pi_ssc_ssd_ssa.Hlist.Loops.{remove_first, any, remove_loop, remove_loop-walk}
use pi_ssc_ssd_ssa.Table.{Table, at, entries, del_test, del_hash_entry, find_hash_key_del}
use pi_ssc_ssd_ssa.Table.Chain.{
  lookup, count, discard, hits, count-remove_first, length-remove_first, remove_first-eq-all,
  any-hits, lookup-remove_all, lookup-key,
}
use pi_ssc_ssd_ssa.Table.Place.{
  IsTable, lookup-home, length-entries-set, set-IsTable, lookup-set, home-in, home_same,
}

-- The entry that a message asks to delete: the same address, VLAN and port.
unfoldable pub exact : Entry → Entry → Bool
exact e a = memcmp_key (key_of e) a && a.port_id == e.port_id

exact-key : (e a : Entry) → exact e a ≡ true → memcmp_key (key_of e) a ≡ true
unfolding exact
exact-key e a h = ground arith

-- On a plain address the test of the code is the exact one.
del_test-exact : (e : Entry) → IsPlain e.mac → del_test e ≡ exact e
unfolding del_test exact
del_test-exact e p = fun_ext (λ a. rw (strncmp_key_plain (key_of e) a p))

-- A test that only entries under another key pass discards nothing.
discard_other :
    (q : Key) (e : Entry) (l : List Entry)
    → memcmp_key q e ≡ false
    → discard (exact e) (lookup q l) ≡ lookup q l
unfolding exact
discard_other q e l other = elim (Option-cases (lookup q l)) [
  | inl gone ↦ rw gone
  | inr (a, there) ↦ rw there (ground (arith, memcmp_key_congr q a e, lookup-key q l a there))
]

module _ (H : Hlist Entry) where
  open H use {Head, walk}

  -- What the search does to the chain of `e`, on every branch and for every address.
  pub record Unlinked (e : Entry) (t : Table H) (r : Table H × Bool) : Type 0 where
    pub table : IsTable H r.0
    pub found : r.1 ≡ any (del_test e) (walk (at H t (home (key_of e))))
    pub reads :
        (q : Key)
        → lookup q (entries H r.0) ≡ (
            if home (key_of e) == home q
            then lookup q (remove_first (del_test e) (walk (at H t (home (key_of e)))))
            else lookup q (entries H t))
    pub size : length (entries H r.0) + (if r.1 then 1 else 0) ≡ length (entries H t)

  set-Unlinked :
      (e : Entry) (t : Table H) (h : Head) (ret : Bool)
      → IsTable H t
      → let chain = walk (at H t (home (key_of e))) in
        walk h ≡ remove_first (del_test e) chain
        → ret ≡ any (del_test e) chain
        → Unlinked e t (set t (home (key_of e)) h, ret)
  set-Unlinked e t h ret v w f = record {
    table = table;
    found = f;
    reads = λ q. rw (← w) (lookup-set H t i h q v table small);
    size = size;
  }
    where
      i : ℕ
      i = home (key_of e)

      chain : List Entry
      chain = walk (at H t i)

      small : i < hash_size
      small = home-lt (key_of e)

      table : IsTable H (set t i h)
      table =
          set-IsTable H t i h v small
            (λ q. rw w (omega (arith, count-remove_first q (del_test e) chain, v.fits q i)))

      size : length (entries H (set t i h)) + (if ret then 1 else 0) ≡ length (entries H t)
      size =
          let n = length-entries-set H t i h (home-in H t (key_of e) v) in
          let m : length (walk h) + (if ret then 1 else 0) ≡ length chain =
            rw (w, f) (length-remove_first (del_test e) chain) in
          omega arith

  pub del_hash_entry-Unlinked :
      (junk : ℕ) (e : Entry) (t : Table H) → IsTable H t → Unlinked e t (del_hash_entry H junk e t)
  unfolding del_hash_entry find_hash_key_del lookup remove_first any
  del_hash_entry-Unlinked junk e t v =
      rw (hash-home junk e.mac e.vlan_id) (elim (Bool-cases (H.no_first h)) [
        | inl bare ↦ rw bare (record {
          table = v;
          found = rw (empty bare);
          reads = λ q. bare_reads bare q;
          size = omega arith;
        })
        | inr full ↦ rw full (set-Unlinked e t _ _ v w.0 w.1)
      ])
    where
      h : Head
      h = at H t (home (key_of e))

      empty : H.no_first h ≡ true → walk h ≡ []
      empty bare = is_nil-nil (walk h) (sym (H.no_first-walk h) ∙ bare)

      bare_reads :
          H.no_first h ≡ true
          → (q : Key)
          → lookup q (entries H t) ≡ (
              if home (key_of e) == home q
              then lookup q (remove_first (del_test e) (walk h))
              else lookup q (entries H t))
      bare_reads bare q =
          let old = (lookup-home H t q v).0 in
          let none_there = empty bare in rw none_there (ground (arith, old, none_there))

      w :
          (walk (remove_loop H (del_test e) 0 (walk h) h).0 ≡ remove_first (del_test e) (walk h))
          × ((remove_loop H (del_test e) 0 (walk h) h).1 ≡ any (del_test e) (walk h))
      w = remove_loop-walk H (del_test e) h

  -- What a deletion means: the entry under the key of `e` goes if it has the port of `e`.
  pub record Deleted (e : Entry) (t : Table H) (r : Table H × Bool) : Type 0 where
    pub table : IsTable H r.0
    pub found : r.1 ≡ hits (exact e) (lookup (key_of e) (entries H t))
    pub reads : (q : Key) → lookup q (entries H r.0) ≡ discard (exact e) (lookup q (entries H t))
    pub size : length (entries H r.0) + (if r.1 then 1 else 0) ≡ length (entries H t)

  pub del_hash_entry-Deleted :
      (junk : ℕ) (e : Entry) (t : Table H)
      → IsTable H t
      → IsPlain e.mac
      → Deleted e t (del_hash_entry H junk e t)
  del_hash_entry-Deleted junk e t v p = record {
    table = u.table;
    found =
        rw (← (lookup-home H t k v).0) at
          (rw agree at u.found ∙ any-hits k (exact e) (exact-key e) chain (one k));
    reads = reads;
    size = u.size;
  }
    where
      u : Unlinked e t (del_hash_entry H junk e t)
      u = del_hash_entry-Unlinked junk e t v

      k : Key
      k = key_of e

      chain : List Entry
      chain = walk (at H t (home k))

      one : (q : Key) → count q chain ≤ 1
      one q = ground (arith, v.fits q (home k))

      agree : del_test e ≡ exact e
      agree = del_test-exact e p

      reads :
          (q : Key)
          → lookup q (entries H (del_hash_entry H junk e t).0)
            ≡ discard (exact e) (lookup q (entries H t))
      reads q =
          let step = u.reads q in
          let old = (lookup-home H t q v).0 in
          let all : lookup q (remove_first (del_test e) chain)
              ≡ discard (exact e) (lookup q chain) =
            rw (agree, remove_first-eq-all k (exact e) (exact-key e) chain (one k))
              (lookup-remove_all q (exact e) chain (one q)) in
          elim (Bool-cases (memcmp_key q e)) [
            | inl same ↦ ground (arith, home_same q e same)
            | inr other ↦ ground (arith, discard_other q e (entries H t) other)
          ]
