-- ===== src/Pi/Listing.antt =====
-- What the three listings of addresses show.
use pi_ssc_ssd_ssa.Common.{
  ℕ, ◌+◌, ◌%◌, ◌≡◌, refl, sym, ◌∙◌, ap, inl, inr, Bool, true, false, List, [], ◌∷◌, ◌++◌, map,
  flatten, arith, length, Bool-cases, is_nil-nil,
}
use pi_ssc_ssd_ssa.Public.{Entry, u32_mod}
use pi_ssc_ssd_ssa.Pi.Rows.{
  Row, row, is_static, is_dynamic, port_col, select, print_rows, select-append, print_rows-append,
  show_chain-rows, select_static-round, select_dynamic-round, map-entry-round, length-kinds,
  length-map-entry,
}
use pi_ssc_ssd_ssa.Hlist.{Hlist}
use pi_ssc_ssd_ssa.Table.{entries}
use pi_ssc_ssd_ssa.Pi.Db.{Db, IsDb}
use pi_ssc_ssd_ssa.Pi.Show.{
  title, dyn_count_line, static_count_line, total_line, no_test, vlan_test, show_head, show_both,
  show_statics, pi_show_vlan_mac, pi_show_mac_count, pi_show_static_mac, pi_show_all_mac,
}

module _ (H : Hlist Entry) where
  open H use {Head, walk}

  -- The rows of both tables, as the loop over the index meets them.
  unfoldable pub listing : List Head → List Head → List Row
  listing [] ds = []
  listing (s ∷ ss) [] = []
  listing (s ∷ ss) (d ∷ ds) = map (row false) (walk s) ++ (map (row true) (walk d) ++ listing ss ds)

  show_head-rows :
      (test : Entry → Bool) (d : Bool) (h : Head)
      → show_head H test (port_col d) h
        ≡ print_rows (select (λ r. test r.entry) (map (row d) (walk h)))
  unfolding show_head select print_rows
  show_head-rows test d h = elim (Bool-cases (H.no_first h)) [
    | inl bare ↦ rw (bare, is_nil-nil (walk h) (sym (H.no_first-walk h) ∙ bare)) refl
    | inr full ↦ rw full (show_chain-rows test d (walk h))
  ]

  show_both-rows :
      (test : Entry → Bool) (ss ds : List Head)
      → show_both H test ss ds ≡ print_rows (select (λ r. test r.entry) (listing ss ds))
  unfolding show_both listing
  show_both-rows test [] ds = unfold print_rows select in refl
  show_both-rows test (s ∷ ss) [] = unfold print_rows select in refl
  show_both-rows test (s ∷ ss) (d ∷ ds) =
      rw
        (
          select-append (λ r. test r.entry) (map (row false) (walk s))
              (map (row true) (walk d) ++ listing ss ds),
          select-append (λ r. test r.entry) (map (row true) (walk d)) (listing ss ds),
          print_rows-append,
          print_rows-append (select (λ r. test r.entry) (map (row true) (walk d))),
          show_head-rows test false s,
          show_head-rows test true d,
          show_both-rows test ss ds,
        )
        refl

  select_any : (rs : List Row) → select (λ r. no_test r.entry) rs ≡ rs
  unfolding select no_test
  select_any [] = refl
  select_any (r ∷ rs) = ap (λ l. r ∷ l) (select_any rs)

  show_statics-rows :
      (ss ds : List Head)
      → length ss ≡ length ds
      → show_statics H ss ≡ print_rows (select is_static (listing ss ds))
  unfolding show_statics listing
  show_statics-rows [] ds e = unfold print_rows select in refl
  show_statics-rows (s ∷ ss) [] e = absurd (omega arith)
  show_statics-rows (s ∷ ss) (d ∷ ds) e =
      rw
        (
          show_head-rows no_test false s,
          select_static-round (walk s) (walk d) (listing ss ds),
          print_rows-append,
          select_any (map (row false) (walk s)),
          show_statics-rows ss ds (omega arith),
        )
        refl

  -- The rows of a kind are the entries of its table, in their order.
  listing-statics :
      (ss ds : List Head)
      → length ss ≡ length ds
      → map (λ r. r.entry) (select is_static (listing ss ds)) ≡ entries H ss
  unfolding listing entries flatten
  listing-statics [] ds e = unfold select in refl
  listing-statics (s ∷ ss) [] e = absurd (omega arith)
  listing-statics (s ∷ ss) (d ∷ ds) e =
      rw
        (
          select_static-round (walk s) (walk d) (listing ss ds),
          map-entry-round,
          listing-statics ss ds (omega arith),
        )
        refl

  listing-dynamics :
      (ss ds : List Head)
      → length ss ≡ length ds
      → map (λ r. r.entry) (select is_dynamic (listing ss ds)) ≡ entries H ds
  unfolding listing entries flatten
  listing-dynamics [] [] e = unfold select in refl
  listing-dynamics [] (d ∷ ds) e = absurd (omega arith)
  listing-dynamics (s ∷ ss) [] e = absurd (omega arith)
  listing-dynamics (s ∷ ss) (d ∷ ds) e =
      rw
        (
          select_dynamic-round (walk s) (walk d) (listing ss ds),
          map-entry-round,
          listing-dynamics ss ds (omega arith),
        )
        refl

  -- In a database in order there is one list of rows, whose static rows are the entries of the
  -- static table and whose dynamic rows are those of the dynamic table, in their orders: one command
  -- prints all of its rows, one the static rows, and one those of the given VLAN, each under the
  -- title.
  pub pi_show-rows :
      (num_vlan : ℕ) (db : Db H)
      → IsDb H db
      → (rows : List Row) × (map (λ r. r.entry) (select is_static rows) ≡ entries H db.static_tbl)
        × (map (λ r. r.entry) (select is_dynamic rows) ≡ entries H db.dyn_tbl)
        × (pi_show_all_mac H db ≡ title ∷ print_rows rows)
        × (pi_show_static_mac H db ≡ title ∷ print_rows (select is_static rows))
        × (pi_show_vlan_mac H num_vlan db
            ≡ title ∷ print_rows (select (λ r. vlan_test num_vlan r.entry) rows))
  unfolding pi_show_all_mac pi_show_static_mac pi_show_vlan_mac
  pi_show-rows num_vlan db v =
      let ss = db.static_tbl in
      let ds = db.dyn_tbl in
      let e : length ss ≡ length ds = v.static_table.size ∙ sym v.dyn_table.size in
      (
        listing ss ds,
        listing-statics ss ds e,
        listing-dynamics ss ds e,
        ap (λ l. title ∷ l)
            (show_both-rows no_test ss ds ∙ ap print_rows (select_any (listing ss ds))),
        ap (λ l. title ∷ l) (show_statics-rows ss ds e),
        ap (λ l. title ∷ l) (show_both-rows (vlan_test num_vlan) ss ds),
      )

  -- In a database in order the three counts that are printed are, modulo 2^32, those of the dynamic
  -- rows, the static rows and all rows that the listing of all addresses prints.
  pub pi_show_mac_count-rows :
      (db : Db H)
      → IsDb H db
      → (rows : List Row) × (pi_show_all_mac H db ≡ title ∷ print_rows rows)
        × (pi_show_mac_count H db
            ≡ dyn_count_line (length (select is_dynamic rows) % u32_mod)
              ∷ static_count_line (length (select is_static rows) % u32_mod)
              ∷ total_line (length rows % u32_mod)
              ∷ [])
  unfolding pi_show_mac_count
  pi_show_mac_count-rows db v =
      let (rows, st, dy, all, _, _) = pi_show-rows 0 db v in
      let n_st : length (select is_static rows) ≡ length (entries H db.static_tbl) =
        sym (length-map-entry (select is_static rows)) ∙ ap length st in
      let n_dy : length (select is_dynamic rows) ≡ length (entries H db.dyn_tbl) =
        sym (length-map-entry (select is_dynamic rows)) ∙ ap length dy in
      let both = length-kinds rows in
      let d : db.dyn_addr_count ≡ length (select is_dynamic rows) % u32_mod =
        v.dyn_count ∙ ap (λ (n : ℕ). n % u32_mod) (sym n_dy) in
      let s : db.static_addr_count ≡ length (select is_static rows) % u32_mod =
        v.static_count ∙ ap (λ (n : ℕ). n % u32_mod) (sym n_st) in
      let t : (db.dyn_addr_count + db.static_addr_count) % u32_mod ≡ length rows % u32_mod =
        omega arith in
      (rows, all, cc)
