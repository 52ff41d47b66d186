-- ===== src/Table/Place.antt =====
-- Where the entries of a table stand, and writes to one chain.
use pi_ssc_ssd_ssa.Common.{
  ℕ, zero, suc, ◌+◌, ◌≤◌, ◌<◌, ◌≡◌, ◌≢◌, true, refl, [], ◌∷◌, flatten, arith, ◌==◌, length,
  length-append, length-set, get_or, set, replicate, get_or-set, get_or-replicate, length-replicate,
  count_if, if◌then◌else◌,
}
use pi_ssc_ssd_ssa.Public.{Entry, Key, key_of, hash_size}
use pi_ssc_ssd_ssa.Public.Compare.{memcmp_key, memcmp_key_iff}
use pi_ssc_ssd_ssa.Public.Hash.{home, home-lt}
use pi_ssc_ssd_ssa.Hlist.{Hlist}
use pi_ssc_ssd_ssa.Table.{Table, at, entries, empty_table}
use pi_ssc_ssd_ssa.Table.Chain.{lookup, count, lookup-append, lookup-none, count-append}

-- Equal keys have one chain.
pub home_same : (q : Key) (e : Entry) → memcmp_key q e ≡ true → home (key_of e) ≡ home q
home_same q e h = rw ((memcmp_key_iff q e).0 h)

module _ (H : Hlist Entry) where
  open H use {Head, walk}

  -- The array has its size, a key has at most one entry, and that stands in the key's chain.
  pub record IsTable (t : Table H) : Type 0 where
    pub size : length t ≡ hash_size
    pub fits : (q : Key) (i : ℕ) → count q (walk (at H t i)) ≤ (if i == home q then 1 else 0)

  pub home-in : (t : Table H) (q : Key) → IsTable t → home q < length t
  home-in t q v = rw v.size (home-lt q)

  count-nowhere :
      (t : Table H) (q : Key)
      → ((i : ℕ) → count q (walk (at H t i)) ≡ 0)
      → count q (entries H t) ≡ 0
  unfolding entries get_or flatten
  count-nowhere [] q h = rw (← H.walk-init) (h 0)
  count-nowhere (c ∷ t) q h =
      let here : count q (walk c) ≡ 0 = h 0 in
      let rest = count-nowhere t q (λ i. h (suc i)) in rw count-append (omega (arith, here, rest))

  -- A key whose entries all stand in one chain is found in the whole as in that chain.
  lookup-only :
      (t : Table H) (q : Key) (j : ℕ)
      → ((i : ℕ) → i ≢ j → count q (walk (at H t i)) ≡ 0)
      → (lookup q (entries H t) ≡ lookup q (walk (at H t j)))
        × (count q (entries H t) ≡ count q (walk (at H t j)))
  unfolding entries get_or flatten
  lookup-only [] q j h = rw H.walk-init (refl, refl)
  lookup-only (c ∷ t) q zero h =
      let rest = count-nowhere t q (λ i. h (suc i) (omega arith)) in
      rw (lookup-append, count-append, rest, lookup-none q _ rest) (ground arith, omega arith)
  lookup-only (c ∷ t) q (suc j) h =
      let here : count q (walk c) ≡ 0 = h 0 (omega arith) in
      let ih = lookup-only t q j (λ i n. h (suc i) (omega arith)) in
      rw (lookup-append, count-append, here, lookup-none q _ here) (ih.0, omega (arith, ih.1))

  -- Looking through all the chains finds what the key's own chain has, and at most one entry.
  pub lookup-home :
      (t : Table H) (q : Key)
      → IsTable t
      → (lookup q (entries H t) ≡ lookup q (walk (at H t (home q)))) × (count q (entries H t) ≤ 1)
  lookup-home t q v =
      let only = lookup-only t q (home q) (λ i n. ground (arith, v.fits q i)) in
      (only.0, rw only.1 (ground (arith, v.fits q (home q))))

  pub length-entries-set :
      (t : Table H) (i : ℕ) (h : Head)
      → i < length t
      → length (entries H (set t i h)) + length (walk (at H t i))
        ≡ length (entries H t) + length (walk h)
  unfolding entries get_or set flatten
  length-entries-set [] i h b = absurd (omega arith)
  length-entries-set (c ∷ t) zero h b = rw (length-append, length-append) (omega arith)
  length-entries-set (c ∷ t) (suc i) h b =
      rw (length-append, length-append) (omega (arith, length-entries-set t i h (omega arith)))

  -- The chain of key `k` becomes `h`: the table stays in order if `h` holds no key twice and none
  -- that is not at home there.
  pub set-IsTable :
      (t : Table H) (i : ℕ) (h : Head)
      → IsTable t
      → i < hash_size
      → ((q : Key) → count q (walk h) ≤ (if i == home q then 1 else 0))
      → IsTable (set t i h)
  set-IsTable t i h v b few = record {
    size = rw (length-set t i h) v.size;
    fits = λ q j. rw (get_or-set t i j h H.init (rw v.size b)) (ground (arith, few q, v.fits q j));
  }

  pub lookup-set :
      (t : Table H) (i : ℕ) (h : Head) (q : Key)
      → IsTable t
      → IsTable (set t i h)
      → i < hash_size
      → lookup q (entries H (set t i h))
        ≡ (if i == home q then lookup q (walk h) else lookup q (entries H t))
  lookup-set t i h q v w b =
      let new = (lookup-home (set t i h) q w).0 in
      let old = (lookup-home t q v).0 in
      let read = get_or-set t i (home q) h H.init (rw v.size b) in ground (arith, new, old, read)

  pub empty_table-IsTable : IsTable (empty_table H)
  unfolding empty_table count count_if
  empty_table-IsTable = record {
    size = length-replicate hash_size H.init;
    fits = λ q i. rw (get_or-replicate hash_size i H.init, H.walk-init) (omega arith);
  }

  replicate-entries : (n : ℕ) → entries H (replicate n H.init) ≡ []
  unfolding entries replicate flatten
  replicate-entries zero = refl
  replicate-entries (suc n) = rw (H.walk-init, replicate-entries n)

  pub empty_table-entries : entries H (empty_table H) ≡ []
  unfolding empty_table
  empty_table-entries = replicate-entries hash_size
