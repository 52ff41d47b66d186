-- ===== src/Tests/TableTests.antt =====
-- The theorems on tables, hashes and comparisons at concrete inputs.
use pi_ssc_ssd_ssa.Common.{ℕ, ◌≡◌, ◌≢◌, refl, true, [], ◌∷◌, arith, none, some, ◌↔◌}
use pi_ssc_ssd_ssa.Public.{Entry, Key, key_of}
use pi_ssc_ssd_ssa.Public.Compare.{
  memcmp_key, strncmp_key, memcmp_key_iff, IsPlain, strncmp_key_plain,
}
use pi_ssc_ssd_ssa.Public.Hash.{hash_function, hash_function-junk, home}
use pi_ssc_ssd_ssa.Hlist.Loops.{any}
use pi_ssc_ssd_ssa.Table.{Table, entries, empty_table, insert_hash_table, del_hash_entry, del_test}
use pi_ssc_ssd_ssa.Table.Chain.{lookup}
use pi_ssc_ssd_ssa.Table.Place.{IsTable, empty_table-IsTable}
use pi_ssc_ssd_ssa.Table.Insert.{Inserted, insert_hash_table-Inserted}
use pi_ssc_ssd_ssa.Table.Delete.{Deleted, del_hash_entry-Deleted}
use pi_ssc_ssd_ssa.Table.Text.{del_hash_entry_other}
use pi_ssc_ssd_ssa.Tests.Instances.{chains, host, moved_host, plain_mac, zero_host_a, zero_host_b}

program : Unit {0}
unfolding pi_ssc_ssd_ssa.Table.entries empty_table insert_hash_table
    pi_ssc_ssd_ssa.Table.find_hash_key pi_ssc_ssd_ssa.Hlist.Loops.change_loop
    pi_ssc_ssd_ssa.Common.replicate pi_ssc_ssd_ssa.Common.get_or pi_ssc_ssd_ssa.Common.set
    pi_ssc_ssd_ssa.Public.Hash.home hash_function pi_ssc_ssd_ssa.Public.Compare.memcmp_key
    pi_ssc_ssd_ssa.Public.Compare.same_bytes pi_ssc_ssd_ssa.Tests.Instances.insert_at
    pi_ssc_ssd_ssa.Table.del_test pi_ssc_ssd_ssa.Public.Compare.strncmp_key
    pi_ssc_ssd_ssa.Public.Compare.same_text any
program = tt

-- A table with one host, and one with two addresses that begin with a zero byte.
abbrev one_host : Table chains
one_host = (insert_hash_table chains 7 host (empty_table chains)).0

abbrev zero_hosts : Table chains
zero_hosts =
    (insert_hash_table chains 2 zero_host_a
      (insert_hash_table chains 1 zero_host_b (empty_table chains)).0).0

one_host-IsTable : IsTable chains one_host
one_host-IsTable =
    (insert_hash_table-Inserted chains 7 host (empty_table chains)
      (empty_table-IsTable chains)).table

zero_hosts-IsTable : IsTable chains zero_hosts
zero_hosts-IsTable =
    (insert_hash_table-Inserted chains 2 zero_host_a _
      (insert_hash_table-Inserted chains 1 zero_host_b _ (empty_table-IsTable chains)).table).table

pub plain_mac-IsPlain : IsPlain plain_mac
plain_mac-IsPlain = record {
  n0 = omega arith;
  n1 = omega arith;
  n2 = omega arith;
  n3 = omega arith;
  n4 = omega arith;
}

memcmp_key_iff_example :
    (memcmp_key (key_of host) moved_host ≡ true) ↔ (key_of moved_host ≡ key_of host)
memcmp_key_iff_example = memcmp_key_iff (key_of host) moved_host

insert_hash_table-Inserted_example :
    Inserted chains moved_host one_host (insert_hash_table chains 9 moved_host one_host)
insert_hash_table-Inserted_example =
    insert_hash_table-Inserted chains 9 moved_host one_host one_host-IsTable

del_hash_entry-Deleted_example :
    Deleted chains host one_host (del_hash_entry chains 9 host one_host)
del_hash_entry-Deleted_example =
    del_hash_entry-Deleted chains 9 host one_host one_host-IsTable plain_mac-IsPlain

del_hash_entry_other_example :
    lookup (key_of zero_host_a) (entries chains (del_hash_entry chains 9 zero_host_b zero_hosts).0)
    ≡ none
unfolding program
del_hash_entry_other_example =
    (del_hash_entry_other chains 9 zero_host_b zero_host_a [] (zero_host_b ∷ []) zero_hosts
      zero_hosts-IsTable refl refl refl (λ e. cc)).2
