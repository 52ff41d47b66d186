-- ===== src/Tests/ShowTests.antt =====
-- The listings at concrete databases.
use pi_ssc_ssd_ssa.Common.{◌≡◌, ◌%◌, true, some, List, [], ◌∷◌, map, arith, length}
use pi_ssc_ssd_ssa.Public.{u32_mod}
use pi_ssc_ssd_ssa.Table.{entries}
use pi_ssc_ssd_ssa.Pi.Show.{
  title, dyn_count_line, static_count_line, total_line, vlan_test, print_entry, pi_show_vlan_mac,
  pi_show_mac_count, pi_show_static_mac, pi_show_all_mac,
}
use pi_ssc_ssd_ssa.Pi.Rows.{Row, is_static, is_dynamic, port_col, select, print_rows}
use pi_ssc_ssd_ssa.Pi.Listing.{pi_show-rows, pi_show_mac_count-rows}
use pi_ssc_ssd_ssa.Pi.Printing.{read_row, read_row-print_entry}
use pi_ssc_ssd_ssa.Pi.Handlers.{pi_deal_notify_msg}
use pi_ssc_ssd_ssa.Pi.Invariant.{pi_deal_notify_msg-IsDb}
use pi_ssc_ssd_ssa.Pi.Db.{Db, IsDb}
use pi_ssc_ssd_ssa.Tests.Instances.{chains, env, host, plain_mac}
use pi_ssc_ssd_ssa.Tests.PiTests.{fresh, fresh-IsDb}

abbrev with_host : Db chains
with_host = pi_deal_notify_msg chains env host fresh

with_host-IsDb : IsDb chains with_host
with_host-IsDb = pi_deal_notify_msg-IsDb chains env host fresh fresh-IsDb

pi_show-rows_example :
    (rows : List Row) × (map (λ r. r.entry) (select is_static rows)
      ≡ entries chains with_host.static_tbl)
    × (map (λ r. r.entry) (select is_dynamic rows) ≡ entries chains with_host.dyn_tbl)
    × (pi_show_all_mac chains with_host ≡ title ∷ print_rows rows)
    × (pi_show_static_mac chains with_host ≡ title ∷ print_rows (select is_static rows))
    × (pi_show_vlan_mac chains 10 with_host
        ≡ title ∷ print_rows (select (λ r. vlan_test 10 r.entry) rows))
pi_show-rows_example = pi_show-rows chains 10 with_host with_host-IsDb

pi_show_mac_count-rows_example :
    (rows : List Row) × (pi_show_all_mac chains with_host ≡ title ∷ print_rows rows)
    × (pi_show_mac_count chains with_host
        ≡ dyn_count_line (length (select is_dynamic rows) % u32_mod)
          ∷ static_count_line (length (select is_static rows) % u32_mod)
          ∷ total_line (length rows % u32_mod)
          ∷ [])
pi_show_mac_count-rows_example = pi_show_mac_count-rows chains with_host with_host-IsDb

read_row-print_entry_example :
    read_row (print_entry (port_col true) host)
    ≡ some (record { dynamic = true; vlan_id = 10; mac = plain_mac; port_id = 3 })
read_row-print_entry_example = read_row-print_entry true host (record {
  b0 = omega arith;
  b1 = omega arith;
  b2 = omega arith;
  b3 = omega arith;
  b4 = omega arith;
  b5 = omega arith;
})
