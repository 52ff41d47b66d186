-- ===== src/Pi/Ports.antt =====
-- The loops over the ports in the management process.
use pi_ssc_ssd_ssa.Common.{
  ℕ, zero, suc, ◌+◌, ◌≤◌, ◌≡◌, refl, ◌∙◌, inl, inr, Option-cases, ◌&&◌, none, some, List, arith,
  ltb, leb, length, length-set, get_or, get_or-set, if◌then◌else◌, length-fill, get_or-fill,
  length-replicate, get_or-replicate, set, replicate,
}
use pi_ssc_ssd_ssa.Public.{Entry, port_num}
use pi_ssc_ssd_ssa.Public.Message.{mac_fwd_learn}
use pi_ssc_ssd_ssa.Hlist.{Hlist}
use pi_ssc_ssd_ssa.Table.Place.{empty_table-IsTable, empty_table-entries}
use pi_ssc_ssd_ssa.Pi.Db.{Db, IsDb, pi_default_args_init}
use pi_ssc_ssd_ssa.Pi.Local.{learn_status, learn_loop, pi_local_learn_sta}

length-learn_loop :
    (n i : ℕ) (str ports : List ℕ) → length (learn_loop n i str ports) ≡ length ports
unfolding learn_loop
length-learn_loop zero i str ports = refl
length-learn_loop (suc n) i str ports = elim (Option-cases (learn_status str)) [
  | inl bad ↦ rw (bad, learn_loop)
  | inr (v, good) ↦
      rw (good, learn_loop) (length-learn_loop n (i + 1) str (set ports i v) ∙ length-set ports i v)
]

learn_loop_bad :
    (n i : ℕ) (str ports : List ℕ) → learn_status str ≡ none → learn_loop n i str ports ≡ ports
unfolding learn_loop
learn_loop_bad zero i str ports bad = refl
learn_loop_bad (suc n) i str ports bad = rw (bad, learn_loop)

get_or-learn_loop :
    (n i : ℕ) (str ports : List ℕ) (v j : ℕ)
    → learn_status str ≡ some v
    → i + n ≤ length ports
    → get_or (learn_loop n i str ports) j 0
      ≡ (if leb i j && ltb j (i + n) then v else get_or ports j 0)
unfolding learn_loop
get_or-learn_loop zero i str ports v j e h = ground arith
get_or-learn_loop (suc n) i str ports v j e h =
    let ih =
      get_or-learn_loop n (i + 1) str (set ports i v) v j e
        (rw (length-set ports i v) (omega arith)) in
    rw (e, learn_loop) (ground (arith, ih, get_or-set ports i j v 0))

module _ (H : Hlist Entry) where
  -- A known text gives its status to the places 0 to 23 of the array, and leaves place 24, which is
  -- the status of the last port; an unknown text changes nothing.
  pub pi_local_learn_sta-ports :
      (str : List ℕ) (db : Db H) (j : ℕ)
      → IsDb H db
      → get_or (pi_local_learn_sta H str db).port_status j 0 ≡ (elim (learn_status str) [
        | some v ↦ if ltb j port_num then v else get_or db.port_status j 0
        | none ↦ get_or db.port_status j 0
      ])
  unfolding pi_local_learn_sta
  pi_local_learn_sta-ports str db j v = elim (Option-cases (learn_status str)) [
    | inl bad ↦ rw (bad, learn_loop_bad port_num 0 str db.port_status bad)
    | inr (s, good) ↦ rw good (
        ground (
          arith,
          get_or-learn_loop port_num 0 str db.port_status s j good (omega (arith, v.ports)),
        ))
  ]

  pub pi_local_learn_sta-IsDb :
      (str : List ℕ) (db : Db H) → IsDb H db → IsDb H (pi_local_learn_sta H str db)
  unfolding pi_local_learn_sta
  pi_local_learn_sta-IsDb str db v = record {
    static_table = v.static_table;
    dyn_table = v.dyn_table;
    static_count = v.static_count;
    dyn_count = v.dyn_count;
    ports = length-learn_loop port_num 0 str db.port_status ∙ v.ports;
  }

  pub pi_default_args_init-IsDb :
      IsDb H (pi_default_args_init H)
      × ((j : ℕ)
          → get_or (pi_default_args_init H).port_status j 0
            ≡ (if leb 1 j && leb j port_num then mac_fwd_learn else 0))
  unfolding pi_default_args_init
  pi_default_args_init-IsDb =
      let zeros : List ℕ = replicate (port_num + 1) 0 in
      let zeros_length : length zeros ≡ port_num + 1 = length-replicate (port_num + 1) 0 in
      (
        record {
          static_table = empty_table-IsTable H;
          dyn_table = empty_table-IsTable H;
          static_count = rw (empty_table-entries H);
          dyn_count = rw (empty_table-entries H);
          ports = length-fill port_num 1 (λ i. mac_fwd_learn) zeros ∙ zeros_length;
        },
        λ j. ground (
          arith,
          get_or-fill port_num 1 (λ i. mac_fwd_learn) zeros j 0 (omega (arith, zeros_length)),
          get_or-replicate {A = ℕ} (port_num + 1) j 0,
        ),
      )
