-- ===== src/Tests/ReplayTests.antt =====
-- Sequences of operations on concrete tables.
use pi_ssc_ssd_ssa.Common.{◌≡◌, List, [], ◌∷◌}
use pi_ssc_ssd_ssa.Public.{Key}
use pi_ssc_ssd_ssa.Table.{entries, empty_table}
use pi_ssc_ssd_ssa.Table.Chain.{lookup}
use pi_ssc_ssd_ssa.Table.Place.{IsTable}
use pi_ssc_ssd_ssa.Table.Replay.{
  TableOp, insert, delete, no_entries, map_ops, table_ops, table_ops-replay,
}
use pi_ssc_ssd_ssa.Tests.Instances.{chains, host, moved_host}
use pi_ssc_ssd_ssa.Tests.TableTests.{plain_mac-IsPlain}

-- A host is learnt, moves, and is deleted at its old port and at its new one.
abbrev moves : List TableOp
moves = insert 7 host ∷ insert 9 moved_host ∷ delete 3 host ∷ delete 5 moved_host ∷ []

table_ops-replay_example :
    IsTable chains (table_ops chains moves (empty_table chains)).0
    × ((q : Key)
        → lookup q (entries chains (table_ops chains moves (empty_table chains)).0)
          ≡ (map_ops moves no_entries).0 q)
    × ((table_ops chains moves (empty_table chains)).1 ≡ (map_ops moves no_entries).1)
table_ops-replay_example =
    table_ops-replay chains moves (plain_mac-IsPlain, (plain_mac-IsPlain, tt))
