-- ===== src/Pi/Show.antt =====
-- pi_comm_ssc.c: the functions that print the database, as the list of the calls of `cli_printf`
-- that they make.
use pi_ssc_ssd_ssa.Common.{
  ℕ, zero, suc, ◌+◌, ◌-◌, ◌/◌, ◌%◌, Bool, true, List, [], ◌∷◌, ◌++◌, ltb, ◌==◌, get_or,
  if◌then◌else◌,
}
use pi_ssc_ssd_ssa.Public.{Mac, Entry, bytes, u32_mod}
use pi_ssc_ssd_ssa.Hlist.{Hlist}
use pi_ssc_ssd_ssa.Pi.Db.{Db}

-- A call of `cli_printf`: one constructor for each format, with the values of its fields. For the
-- address it holds the characters.
pub data Printed : Type 0 where
  title : Printed
  vlan_col : ℕ → Printed
  mac_col : List ℕ → Printed
  static_col : ℕ → Printed
  dynamic_col : ℕ → Printed
  dyn_count_line : ℕ → Printed
  static_count_line : ℕ → Printed
  total_line : ℕ → Printed
  aging_line : ℕ → Printed

-- `%02x` of a byte: two digits, the letters small.
unfoldable pub hex_digit : ℕ → ℕ
hex_digit d = if ltb d 10 then b'0' + d else b'a' + (d - 10)

abbrev pub hex2 : ℕ → List ℕ
hex2 b = hex_digit (b / 16) ∷ hex_digit (b % 16) ∷ []

-- `for (j = 0; j < MAC_LEN; j += 2)`: rounds left, and `j`.
unfoldable pub print_pairs : ℕ → ℕ → Mac → List Printed
print_pairs zero j mac = []
print_pairs (suc n) j mac =
    mac_col (hex2 (get_or (bytes mac) j 0) ++ (hex2 (get_or (bytes mac) (j + 1) 0) ++ (b'.' ∷ [])))
    ∷ print_pairs n (j + 2) mac

unfoldable pub print_entry : (ℕ → Printed) → Entry → List Printed
print_entry last assist =
    vlan_col assist.vlan_id ∷ (print_pairs 3 0 assist.mac ++ (last assist.port_id ∷ []))

-- `hlist_for_each` over a chain, with the test before the calls.
unfoldable pub show_chain : (Entry → Bool) → (ℕ → Printed) → List Entry → List Printed
show_chain test last [] = []
show_chain test last (assist ∷ rest) =
    let more = show_chain test last rest in
    if test assist then print_entry last assist ++ more else more

-- `pi_show_all_mac` has no test.
unfoldable pub no_test : Entry → Bool
no_test assist = true

unfoldable pub vlan_test : ℕ → Entry → Bool
vlan_test num_vlan assist = assist.vlan_id == num_vlan

module _ (H : Hlist Entry) where
  open H use {Head, walk}

  -- The body of the loop over the index, for one of the two tables.
  unfoldable pub show_head : (Entry → Bool) → (ℕ → Printed) → Head → List Printed
  show_head test last h = if H.no_first h then [] else show_chain test last (walk h)

  -- `for (i = 0; i < HASH_SIZE; i++)` over both tables, and over the static one.
  unfoldable pub show_both : (Entry → Bool) → List Head → List Head → List Printed
  show_both test [] ds = []
  show_both test (s ∷ ss) [] = []
  show_both test (s ∷ ss) (d ∷ ds) =
      show_head test static_col s ++ (show_head test dynamic_col d ++ show_both test ss ds)

  unfoldable pub show_statics : List Head → List Printed
  show_statics [] = []
  show_statics (s ∷ ss) = show_head no_test static_col s ++ show_statics ss

  unfoldable pub pi_show_vlan_mac : ℕ → Db H → List Printed
  pi_show_vlan_mac num_vlan db = title ∷ show_both (vlan_test num_vlan) db.static_tbl db.dyn_tbl

  -- Takes no mutex, and neither does `pi_show_mac_agetime`; each is one step here.
  unfoldable pub pi_show_mac_count : Db H → List Printed
  pi_show_mac_count db =
      dyn_count_line db.dyn_addr_count
      ∷ static_count_line db.static_addr_count
      ∷ total_line ((db.dyn_addr_count + db.static_addr_count) % u32_mod)
      ∷ []

  unfoldable pub pi_show_static_mac : Db H → List Printed
  pi_show_static_mac db = title ∷ show_statics db.static_tbl

  unfoldable pub pi_show_all_mac : Db H → List Printed
  pi_show_all_mac db = title ∷ show_both no_test db.static_tbl db.dyn_tbl

  unfoldable pub pi_show_mac_agetime : Db H → List Printed
  pi_show_mac_agetime db = aging_line db.age_time ∷ []
