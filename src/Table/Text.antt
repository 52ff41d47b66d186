-- ===== src/Table/Text.antt =====
-- `del_hash_entry` at an address with a zero byte: `strncmp` stops there, and another entry may go.
use pi_ssc_ssd_ssa.Common.{
  ℕ, ◌+◌, ◌≡◌, ◌≢◌, refl, ◌∙◌, inl, inr, Bool, true, false, List, [], ◌∷◌, ◌++◌, arith, ◌==◌,
  if◌then◌else◌, Bool-cases, some, none,
}
use pi_ssc_ssd_ssa.Public.{Entry, Key, key_of}
use pi_ssc_ssd_ssa.Public.Compare.{memcmp_key, memcmp_key_iff, memcmp_key_refl}
use pi_ssc_ssd_ssa.Public.Hash.{home}
use pi_ssc_ssd_ssa.Hlist.{Hlist}
use pi_ssc_ssd_ssa.Hlist.Loops.{remove_first, any}
use pi_ssc_ssd_ssa.Table.{Table, at, entries, del_test, del_hash_entry}
use pi_ssc_ssd_ssa.Table.Chain.{
  lookup, count, orelse, count-append, count-cons, lookup-append, lookup-none,
}
use pi_ssc_ssd_ssa.Table.Place.{IsTable, lookup-home}
use pi_ssc_ssd_ssa.Table.Delete.{Unlinked, del_hash_entry-Unlinked}

-- The first hit goes.
remove_first_hit :
    (p : Entry → Bool) (pre rest : List Entry) (a : Entry)
    → any p pre ≡ false
    → p a ≡ true
    → (remove_first p (pre ++ (a ∷ rest)) ≡ pre ++ rest) × (any p (pre ++ (a ∷ rest)) ≡ true)
unfolding remove_first any
remove_first_hit p [] rest a no_hit hit = rw hit (refl, refl)
remove_first_hit p (b ∷ pre) rest a no_hit hit = ground (arith, remove_first_hit p pre rest a)

lookup-cons :
    (q : Key) (a : Entry) (l : List Entry)
    → lookup q (a ∷ l) ≡ (if memcmp_key q a then some a else lookup q l)
unfolding lookup
lookup-cons q a l = refl

module _ (H : Hlist Entry) where
  open H use {walk}

  -- The first entry in the chain of `e` that passes the test of the code is deleted, also where it
  -- stands under another key than that of `e`, which keeps its own entry.
  pub del_hash_entry_other :
      (junk : ℕ) (e a : Entry) (pre rest : List Entry) (t : Table H)
      → IsTable H t
      → walk (at H t (home (key_of e))) ≡ pre ++ (a ∷ rest)
      → any (del_test e) pre ≡ false
      → del_test e a ≡ true
      → key_of a ≢ key_of e
      → let r = del_hash_entry H junk e t in
        (r.1 ≡ true)
        × (lookup (key_of a) (entries H t) ≡ some a)
        × (lookup (key_of a) (entries H r.0) ≡ none)
        × (lookup (key_of e) (entries H r.0) ≡ lookup (key_of e) (entries H t))
  del_hash_entry_other junk e a pre rest t v w no_hit hit other =
      (u.found ∙ cut.1, before, after_a, after_e)
    where
      i : ℕ
      i = home (key_of e)

      chain : List Entry
      chain = walk (at H t i)

      u : Unlinked H e t (del_hash_entry H junk e t)
      u = del_hash_entry-Unlinked H junk e t v

      cut : (remove_first (del_test e) chain ≡ pre ++ rest) × (any (del_test e) chain ≡ true)
      cut = rw w (remove_first_hit (del_test e) pre rest a no_hit hit)

      counted : (q : Key) → count q chain ≡ count q pre + count q (a ∷ rest)
      counted q = rw w (count-append q pre (a ∷ rest))

      at_home : (i == home (key_of a)) ≡ true
      at_home = ground (
        arith,
        v.fits (key_of a) i,
        counted (key_of a),
        count-cons (key_of a) a rest,
        memcmp_key_refl a,
      )

      alone : (count (key_of a) pre ≡ 0) × (count (key_of a) rest ≡ 0)
      alone = ground (
        arith,
        v.fits (key_of a) i,
        counted (key_of a),
        count-cons (key_of a) a rest,
        memcmp_key_refl a,
      )

      passed_over : memcmp_key (key_of e) a ≡ false
      passed_over = elim (Bool-cases (memcmp_key (key_of e) a)) [
        | inl same ↦ absurd (other ((memcmp_key_iff (key_of e) a).0 same))
        | inr differs ↦ differs
      ]

      before : lookup (key_of a) (entries H t) ≡ some a
      before =
          let k = key_of a in
          let seen : lookup k chain ≡ orelse (lookup k pre) (lookup k (a ∷ rest)) =
            rw w (lookup-append k pre (a ∷ rest)) in
          ground (
            arith,
            (lookup-home H t k v).0,
            at_home,
            seen,
            lookup-none k pre alone.0,
            lookup-cons k a rest,
            memcmp_key_refl a,
          )

      after_a : lookup (key_of a) (entries H (del_hash_entry H junk e t).0) ≡ none
      after_a =
          let k = key_of a in
          let left : lookup k (remove_first (del_test e) chain)
              ≡ orelse (lookup k pre) (lookup k rest) =
            rw cut.0 (lookup-append k pre rest) in
          ground
            (arith, u.reads k, at_home, left, lookup-none k pre alone.0, lookup-none k rest alone.1)

      after_e :
          lookup (key_of e) (entries H (del_hash_entry H junk e t).0)
          ≡ lookup (key_of e) (entries H t)
      after_e =
          let k = key_of e in
          let left : lookup k (remove_first (del_test e) chain)
              ≡ orelse (lookup k pre) (lookup k rest) =
            rw cut.0 (lookup-append k pre rest) in
          let seen : lookup k chain ≡ orelse (lookup k pre) (lookup k (a ∷ rest)) =
            rw w (lookup-append k pre (a ∷ rest)) in
          ground (
            arith,
            (lookup-home H t k v).0,
            u.reads k,
            left,
            seen,
            lookup-cons k a rest,
            passed_over,
          )
