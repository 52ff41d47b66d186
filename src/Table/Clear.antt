-- ===== src/Table/Clear.antt =====
-- The loops over all the chains of a table that unlink and free the entries passing a test
-- (pi/pi_comm_ssc.c and ssc/ssc_db_manger.c).
use pi_ssc_ssd_ssa.Common.{
  ℕ, zero, suc, ◌+◌, ◌≡◌, refl, sym, ◌∙◌, ap, inl, inr, Bool, [], ◌∷◌, flatten, arith, length,
  is_nil-nil, get_or, count_if, count_if-append, if◌then◌else◌, Bool-cases,
}
use pi_ssc_ssd_ssa.Public.{Entry}
use pi_ssc_ssd_ssa.Hlist.{Hlist}
use pi_ssc_ssd_ssa.Hlist.Loops.{remove_all, repeat, clear_loop, clear_loop-walk}
use pi_ssc_ssd_ssa.Table.{Table, at, entries}
use pi_ssc_ssd_ssa.Table.Chain.{count-remove_all, remove_all-append}
use pi_ssc_ssd_ssa.Table.Place.{IsTable}

module _ (H : Hlist Entry) (p : Entry → Bool) {S : Type 0} (hit : S → S) where
  open H use {Head, walk}

  -- `if (head[i].first != NULL) { hlist_for_each_safe ... }`
  unfoldable pub clear_chain : Head → S → Head × S
  clear_chain h s = if H.no_first h then (h, s) else clear_loop H p hit 0 (walk h) h s

  -- `for (i = 0; i < HASH_SIZE; i++)`
  unfoldable pub clear_table : Table H → S → Table H × S
  clear_table [] s = ([], s)
  clear_table (h ∷ t) s =
      let (h', s') = clear_chain h s in let (t', s'') = clear_table t s' in (h' ∷ t', s'')

  clear_chain-walk :
      (h : Head) (s : S)
      → (walk (clear_chain h s).0 ≡ remove_all p (walk h))
        × ((clear_chain h s).1 ≡ repeat hit (count_if p (walk h)) s)
  unfolding clear_chain remove_all count_if repeat
  clear_chain-walk h s = elim (Bool-cases (H.no_first h)) [
    | inl bare ↦
        let e = is_nil-nil (walk h) (sym (H.no_first-walk h) ∙ bare) in rw (bare, e) (refl, refl)
    | inr full ↦ rw full (clear_loop-walk H p hit h s)
  ]

  repeat-add : (m n : ℕ) (s : S) → repeat hit (m + n) s ≡ repeat hit n (repeat hit m s)
  unfolding repeat
  repeat-add zero n s = rw (let e : 0 + n ≡ n = omega arith in e)
  repeat-add (suc m) n s =
      rw (let e : suc m + n ≡ suc (m + n) = omega arith in e) (repeat-add m n (hit s))

  -- Exactly the entries that pass the test go, the others keep their order, and each hit is counted.
  pub clear_table-entries :
      (t : Table H) (s : S)
      → (entries H (clear_table t s).0 ≡ remove_all p (entries H t))
        × ((clear_table t s).1 ≡ repeat hit (count_if p (entries H t)) s)
  unfolding clear_table entries flatten remove_all repeat count_if
  clear_table-entries [] s = (refl, refl)
  clear_table-entries (h ∷ t) s =
      let c = clear_chain-walk h s in
      let ih = clear_table-entries t (clear_chain h s).1 in
      (
        rw (c.0, ih.0) (sym (remove_all-append p (walk h) (entries H t))),
        rw (ih.1, c.1, count_if-append)
            (sym (repeat-add (count_if p (walk h)) (count_if p (entries H t)) s)),
      )

  clear_table-at :
      (t : Table H) (s : S) (i : ℕ)
      → walk (at H (clear_table t s).0 i) ≡ remove_all p (walk (at H t i))
  unfolding clear_table get_or
  clear_table-at [] s i = unfold remove_all in rw H.walk-init
  clear_table-at (h ∷ t) s zero = (clear_chain-walk h s).0
  clear_table-at (h ∷ t) s (suc i) = clear_table-at t (clear_chain h s).1 i

  clear_table-length : (t : Table H) (s : S) → length (clear_table t s).0 ≡ length t
  unfolding clear_table
  clear_table-length [] s = refl
  clear_table-length (h ∷ t) s = ap suc (clear_table-length t (clear_chain h s).1)

  pub clear_table-IsTable : (t : Table H) (s : S) → IsTable H t → IsTable H (clear_table t s).0
  clear_table-IsTable t s v = record {
    size = clear_table-length t s ∙ v.size;
    fits = λ q i.
        rw (clear_table-at t s i)
          (omega (arith, count-remove_all q p (walk (at H t i)), v.fits q i));
  }
