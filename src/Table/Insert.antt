-- ===== src/Table/Insert.antt =====
-- `insert_hash_table` against the map from keys to entries that a table stands for.
use pi_ssc_ssd_ssa.Common.{
  ℕ, ◌+◌, ◌≤◌, ◌<◌, ◌≡◌, refl, sym, ◌∙◌, ap, inl, inr, Bool, true, false, ◌&&◌, List, [], ◌∷◌,
  arith, ◌==◌, length, is_nil-nil, is_nil-cons, set, if◌then◌else◌, Bool-cases, some, none,
}
use pi_ssc_ssd_ssa.Public.{Entry, Key, key_of, hash_size}
use pi_ssc_ssd_ssa.Public.Compare.{memcmp_key, memcmp_key_iff}
use pi_ssc_ssd_ssa.Public.Hash.{home, home-lt, hash-home}
use pi_ssc_ssd_ssa.Hlist.{Hlist}
use pi_ssc_ssd_ssa.Hlist.Loops.{change_first, any, change_loop, change_loop-walk}
use pi_ssc_ssd_ssa.Table.{Table, at, entries, move_port, find_hash_key, insert_hash_table}
use pi_ssc_ssd_ssa.Table.Chain.{
  lookup, count, is_some, merge, count-zero, count-cons, any-lookup, count-change_first,
  length-change_first, lookup-change_first, change_first_miss,
}
use pi_ssc_ssd_ssa.Table.Place.{
  IsTable, lookup-home, length-entries-set, set-IsTable, lookup-set, home-in, home_same,
}

module _ (H : Hlist Entry) where
  open H use {Head, walk}

  -- What a search for `e` may do to a table: under the key of `e` the port is set if there is an
  -- entry, no other key changes, and no entry comes or goes.
  pub record Searched (e : Entry) (t : Table H) (r : Table H × Bool) : Type 0 where
    pub table : IsTable H r.0
    pub found : r.1 ≡ is_some (lookup (key_of e) (entries H t))
    pub reads :
        (q : Key)
        → lookup q (entries H r.0) ≡ (
            if r.1 && memcmp_key q e
            then some (merge e (lookup q (entries H t)))
            else lookup q (entries H t))
    pub size : length (entries H r.0) ≡ length (entries H t)

  -- The chain of the key of `e` is given the new port, or is left as it was.
  change-Searched :
      (e : Entry) (t : Table H) (h : Head) (ret : Bool)
      → IsTable H t
      → let i = home (key_of e) in
        walk h ≡ change_first (memcmp_key (key_of e)) (move_port e.port_id) (walk (at H t i))
        → ret ≡ any (memcmp_key (key_of e)) (walk (at H t i))
        → Searched e t (set t i h, ret)
  change-Searched e t h ret v w f = record {
    table = table;
    found = f ∙ any-lookup (key_of e) chain ∙ ap is_some (sym (lookup-home H t (key_of e) v).0);
    reads = reads;
    size = size;
  }
    where
      i : ℕ
      i = home (key_of e)

      p : Entry → Bool
      p = memcmp_key (key_of e)

      chain : List Entry
      chain = walk (at H t i)

      small : i < hash_size
      small = home-lt (key_of e)

      table : IsTable H (set t i h)
      table =
          set-IsTable H t i h v small
            (λ q. rw (w, count-change_first q p e.port_id chain) (v.fits q i))

      size : length (entries H (set t i h)) ≡ length (entries H t)
      size =
          let n = length-entries-set H t i h (home-in H t (key_of e) v) in
          let m : length (walk h) ≡ length chain =
            rw (w, length-change_first p (move_port e.port_id) chain) in
          omega arith

      reads :
          (q : Key)
          → lookup q (entries H (set t i h)) ≡ (
              if ret && memcmp_key q e
              then some (merge e (lookup q (entries H t)))
              else lookup q (entries H t))
      reads q =
          let new = lookup-set H t i h q v table small in
          let old = (lookup-home H t q v).0 in
          let home_q = home_same q e in
          elim (Bool-cases (any p chain)) [
            | inl hit ↦
                let c : lookup q (walk h)
                    ≡ (if memcmp_key q e then some (merge e (lookup q chain)) else lookup q chain) =
                  rw w (lookup-change_first q e chain hit) in
                rw (f, hit) (ground arith)
            | inr miss ↦
                let c : walk h ≡ chain = w ∙ change_first_miss p (move_port e.port_id) chain miss in
                rw (f, miss) (ground arith)
          ]

  pub find_hash_key-Searched :
      (e : Entry) (t : Table H) → IsTable H t → Searched e t (find_hash_key H (home (key_of e)) e t)
  unfolding find_hash_key lookup
  find_hash_key-Searched e t v = elim (Bool-cases (H.no_first h)) [
    | inl bare ↦ rw bare (record {
      table = v;
      found =
          sym (ap is_some ((lookup-home H t (key_of e) v).0 ∙ ap (lookup (key_of e)) (empty bare)));
      reads = λ q. refl;
      size = refl;
    })
    | inr full ↦ rw full (change-Searched e t _ _ v w.0 w.1)
  ]
    where
      h : Head
      h = at H t (home (key_of e))

      empty : H.no_first h ≡ true → walk h ≡ []
      empty bare = is_nil-nil (walk h) (sym (H.no_first-walk h) ∙ bare)

      w :
          (walk (change_loop H (memcmp_key (key_of e)) (move_port e.port_id) 0 (walk h) h).0
            ≡ change_first (memcmp_key (key_of e)) (move_port e.port_id) (walk h))
          × ((change_loop H (memcmp_key (key_of e)) (move_port e.port_id) 0 (walk h) h).1
              ≡ any (memcmp_key (key_of e)) (walk h))
      w = change_loop-walk H (memcmp_key (key_of e)) (move_port e.port_id) h

  -- What `insert_hash_table` does to a table: its result says whether there was an entry under the
  -- key; that entry is given the new port, or else the new entry is added; no other key changes.
  pub record Inserted (e : Entry) (t : Table H) (r : Table H × Bool) : Type 0 where
    pub table : IsTable H r.0
    pub found : r.1 ≡ is_some (lookup (key_of e) (entries H t))
    pub reads :
        (q : Key)
        → lookup q (entries H r.0) ≡ (
            if memcmp_key q e
            then some (merge e (lookup q (entries H t)))
            else lookup q (entries H t))
    pub size : length (entries H r.0) ≡ length (entries H t) + (if r.1 then 0 else 1)

  -- A new entry goes to the front of its chain, by one of the two calls of the list library.
  link-Inserted :
      (e : Entry) (t : Table H) (h : Head)
      → IsTable H t
      → is_some (lookup (key_of e) (entries H t)) ≡ false
      → walk h ≡ e ∷ walk (at H t (home (key_of e)))
      → Inserted e t (set t (home (key_of e)) h, false)
  unfolding lookup
  link-Inserted e t h v absent w = record {
    table = table;
    found = sym absent;
    reads = reads;
    size = size;
  }
    where
      i : ℕ
      i = home (key_of e)

      chain : List Entry
      chain = walk (at H t i)

      small : i < hash_size
      small = home-lt (key_of e)

      vacant : lookup (key_of e) chain ≡ none
      vacant = ground (arith, (lookup-home H t (key_of e) v).0)

      few : (q : Key) → count q (walk h) ≤ (if i == home q then 1 else 0)
      few q = elim (Bool-cases (memcmp_key q e)) [
        | inl same ↦
            let k : count q chain ≡ 0 =
              rw (← (memcmp_key_iff q e).0 same) (count-zero (key_of e) chain vacant) in
            rw (w, count-cons q e chain) (ground (arith, home_same q e))
        | inr other ↦ rw (w, count-cons q e chain) (ground (arith, v.fits q i))
      ]

      table : IsTable H (set t i h)
      table = set-IsTable H t i h v small few

      size : length (entries H (set t i h)) ≡ length (entries H t) + 1
      size =
          let n = length-entries-set H t i h (home-in H t (key_of e) v) in
          let m : length (walk h) ≡ length chain + 1 = rw w (omega arith) in omega arith

      reads :
          (q : Key)
          → lookup q (entries H (set t i h)) ≡ (
              if memcmp_key q e
              then some (merge e (lookup q (entries H t)))
              else lookup q (entries H t))
      reads q =
          let new = lookup-set H t i h q v table small in
          let old = (lookup-home H t q v).0 in
          let home_q = home_same q e in
          let absent_q : memcmp_key q e ≡ true → lookup q (entries H t) ≡ none =
            λ x. rw (← (memcmp_key_iff q e).0 x) (ground arith) in
          let front : lookup q (walk h) ≡ (if memcmp_key q e then some e else lookup q chain) =
            rw w refl in
          ground arith

  -- Both calls of the list library put the entry before the others.
  walk-front :
      (e : Entry) (h : Head) → H.no_first h ≡ false → walk (H.add_before 0 e h) ≡ e ∷ walk h
  walk-front e h full =
      let (x, rest, w) = is_nil-cons (walk h) (sym (H.no_first-walk h) ∙ full) in
      H.walk-add_before [] rest x e h w ∙ ap (λ l. e ∷ l) (sym w)

  pub link_both :
      (e : Entry) (t : Table H)
      → IsTable H t
      → is_some (lookup (key_of e) (entries H t)) ≡ false
      → let i = home (key_of e) in
        let h = at H t i in
        Inserted e t (
          if H.no_first h
          then (set t i (H.add_head e h), false)
          else (set t i (H.add_before 0 e h), false))
  link_both e t v absent =
      let h = at H t (home (key_of e)) in
      elim (Bool-cases (H.no_first h)) [
        | inl bare ↦ rw bare (link-Inserted e t _ v absent (H.walk-add_head e h))
        | inr full ↦ rw full (link-Inserted e t _ v absent (walk-front e h full))
      ]

  -- A table with the same entries under every key, and as many, serves as well.
  Inserted-back :
      (e : Entry) (t t' : Table H) (r : Table H × Bool)
      → ((q : Key) → lookup q (entries H t') ≡ lookup q (entries H t))
      → length (entries H t') ≡ length (entries H t)
      → Inserted e t' r
      → Inserted e t r
  Inserted-back e t t' r same size s = record {
    table = s.table;
    found = s.found ∙ ap is_some (same (key_of e));
    reads = λ q. rw (← same q) (s.reads q);
    size = s.size ∙ ap (λ n. n + (if r.1 then 0 else 1)) size;
  }

  -- Inserting into a table in order, whatever the unset bytes of the hash hold.
  pub insert_hash_table-Inserted :
      (junk : ℕ) (e : Entry) (t : Table H)
      → IsTable H t
      → Inserted e t (insert_hash_table H junk e t)
  unfolding insert_hash_table
  insert_hash_table-Inserted junk e t v =
      rw (hash-home junk e.mac e.vlan_id) (elim (Bool-cases r.1) [
        | inl there ↦ rw there (record {
          table = s.table;
          found = sym there ∙ s.found;
          reads = λ q. ground (arith, s.reads q);
          size = omega (arith, s.size);
        })
        | inr new ↦ rw new (
            Inserted-back e t r.0 _ (λ q. ground (arith, s.reads q)) s.size
              (link_both e r.0 s.table (ground (arith, s.found, s.reads (key_of e)))))
      ])
    where
      r : Table H × Bool
      r = find_hash_key H (home (key_of e)) e t

      s : Searched e t r
      s = find_hash_key-Searched e t v
