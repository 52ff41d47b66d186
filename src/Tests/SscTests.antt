-- ===== src/Tests/SscTests.antt =====
-- The theorems about the SSC at concrete databases.
use pi_ssc_ssd_ssa.Common.{
  ◌≡◌, refl, ap, ◌++◌, List, [], ◌∷◌, true, false, none, some, arith, replicate,
}
use pi_ssc_ssd_ssa.Public.{Entry, StaticMac, key_of}
use pi_ssc_ssd_ssa.Public.Message.{Msg, message, int_arg, mac_entry, msgid_clear_vlan_mac}
use pi_ssc_ssd_ssa.Table.{entries}
use pi_ssc_ssd_ssa.Table.Chain.{lookup}
use pi_ssc_ssd_ssa.Table.Place.{empty_table-entries}
use pi_ssc_ssd_ssa.Pi.Db.{Env, pi_default_args_init}
use pi_ssc_ssd_ssa.Pi.Local.{call_clear_local_mac, clear_vlan_mac}
use pi_ssc_ssd_ssa.Pi.Ports.{pi_default_args_init-IsDb}
use pi_ssc_ssd_ssa.Pi.Handlers.{Pi, deal_msg}
use pi_ssc_ssd_ssa.Pi.Learn.{static_at}
use pi_ssc_ssd_ssa.Pi.Order.{deal_all}
use pi_ssc_ssd_ssa.Ssc.Db.{SscDb, ssc_db_init, static_key, ssc_local_add_addr, ssc_del_age_entry}
use pi_ssc_ssd_ssa.Ssc.Calls.{SscCall, ssc_calls}
use pi_ssc_ssd_ssa.Ssc.Comm.{Platform, Ssc, ssc_mac_update_recv, ssc_recevie_msg_pi}
use pi_ssc_ssd_ssa.Ssc.Sync.{ssc_ds_data_pi}
use pi_ssc_ssd_ssa.Ssc.Blocked.{ssc_local_add_addr-blocks}
use pi_ssc_ssd_ssa.Ssc.Invariant.{IsSscDb, ssc_db_init-IsSscDb, ssc_calls-IsSscDb}
use pi_ssc_ssd_ssa.Ssc.Age.{Aged, ssc_del_age_entry-Aged}
use pi_ssc_ssd_ssa.Ssc.Notice.{Told, ssc_mac_update_recv-Told}
use pi_ssc_ssd_ssa.Ssc.Upload.{sent}
use pi_ssc_ssd_ssa.Ssc.Resync.{ssc_ds_data_pi-Told}
use pi_ssc_ssd_ssa.Ssc.Remove.{clear_vlan-Told}
use pi_ssc_ssd_ssa.Tests.Instances.{chains, env, host, plain_mac}
use pi_ssc_ssd_ssa.Tests.TableTests.{plain_mac-IsPlain}

abbrev pub bare : SscDb chains
bare = record {
  age_time = 0;
  port_status = replicate 25 0;
  dyn_addr_count = 0;
  static_addr_count = 0;
  static_tbl = [];
  dyn_tbl = [];
  locked = false;
}

abbrev pub ssc_fresh : SscDb chains
ssc_fresh = ssc_db_init chains bare

pub ssc_fresh-IsSscDb : IsSscDb chains ssc_fresh
ssc_fresh-IsSscDb = ssc_db_init-IsSscDb chains bare

ssc_db_init-IsSscDb_example : IsSscDb chains ssc_fresh
ssc_db_init-IsSscDb_example = ssc_db_init-IsSscDb chains bare

abbrev pub printer : StaticMac
printer = record { mac = plain_mac; vlan_id = 30; port_id = 2 }

abbrev starved : Env
starved = record env { mem = false }

-- The database after a host was learnt.
abbrev ssc_learnt : SscDb chains
ssc_learnt =
    (ssc_calls-IsSscDb chains env (SscCall.add_dyn host ∷ []) ssc_fresh refl ssc_fresh-IsSscDb).0

ssc_learnt-IsSscDb : IsSscDb chains ssc_learnt
ssc_learnt-IsSscDb =
    (ssc_calls-IsSscDb chains env (SscCall.add_dyn host ∷ []) ssc_fresh refl ssc_fresh-IsSscDb).2

static_absent : lookup (static_key printer) (entries chains ssc_fresh.static_tbl) ≡ none
unfolding ssc_db_init lookup
static_absent = ap (lookup (static_key printer)) (empty_table-entries chains)

ssc_local_add_addr-blocks_example :
    (db : SscDb chains) × (ssc_local_add_addr chains starved printer ssc_fresh ≡ some db)
    × (ssc_calls chains env (SscCall.add_dyn host ∷ SscCall.del_dyn ∷ []) db ≡ none)
ssc_local_add_addr-blocks_example =
    ssc_local_add_addr-blocks chains starved env printer (SscCall.add_dyn host)
      (SscCall.del_dyn ∷ []) ssc_fresh ssc_fresh-IsSscDb.free ssc_fresh-IsSscDb.static_table refl
      static_absent

ssc_del_age_entry-Aged_example :
    (t : List (List Entry)) × (ssc_del_age_entry chains env host ssc_learnt
      ≡ some (record ssc_learnt { dyn_tbl = t; locked = false }))
    × Aged chains (key_of host) ssc_learnt.dyn_tbl t
ssc_del_age_entry-Aged_example =
    ssc_del_age_entry-Aged chains env host ssc_learnt ssc_learnt-IsSscDb.free
      ssc_learnt-IsSscDb.dyn_table

abbrev pub platform : Platform
platform = record { phyid = λ p. p; user_ifx = λ p. p; alloc = true; create = true }

abbrev pub ssc : Ssc chains
ssc = record { db = ssc_fresh; ds_is_end = false; waiting = 0; to_ssd = []; to_pi = [] }

abbrev pub pi : Pi chains
pi = record { db = pi_default_args_init chains; threads = 0 }

pub both_fresh : Told chains ssc.db pi.db
unfolding ssc_db_init pi_default_args_init
both_fresh = record {
  ssc_ok = ssc_fresh-IsSscDb;
  pi_ok = (pi_default_args_init-IsDb chains).0;
  agree = λ q. refl;
}

ssc_mac_update_recv-Told_example :
    (s : Ssc chains) × (p : Pi chains) × (m : Msg) × (ssc_mac_update_recv chains env platform
        (mac_entry host)
        ssc
      ≡ some s)
    × (s.to_pi ≡ ssc.to_pi ++ (m ∷ []))
    × (deal_msg chains env true m pi ≡ some p)
    × Told chains s.db p.db
ssc_mac_update_recv-Told_example =
    ssc_mac_update_recv-Told chains env platform true host ssc pi both_fresh refl plain_mac-IsPlain
      (λ f. absurd (omega (arith, f)))

clear_vlan-Told_example :
    (s : Ssc chains) × (ssc_recevie_msg_pi chains env platform
        (message msgid_clear_vlan_mac (int_arg 10))
        ssc
      ≡ some s)
    × Told chains s.db (call_clear_local_mac chains msgid_clear_vlan_mac (clear_vlan_mac 10) pi.db)
    × (s.db.static_tbl ≡ ssc.db.static_tbl)
    × (static_at chains
          (key_of host)
          (call_clear_local_mac chains msgid_clear_vlan_mac (clear_vlan_mac 10) pi.db)
        ≡ none)
clear_vlan-Told_example = clear_vlan-Told chains env platform 10 ssc pi.db (key_of host) both_fresh

ssc_ds_data_pi-Told_example :
    (ms : List Msg) × (p : Pi chains) × (ssc_ds_data_pi chains env (record ssc { db = ssc_learnt })
      ≡ some (sent chains ms (record ssc { db = ssc_learnt })))
    × (deal_all (deal_msg chains env true) ms pi ≡ some p)
    × Told chains ssc_learnt p.db
unfolding pi_default_args_init lookup
ssc_ds_data_pi-Told_example =
    ssc_ds_data_pi-Told chains env true (record ssc { db = ssc_learnt }) pi refl ssc_learnt-IsSscDb
      (pi_default_args_init-IsDb chains).0 (λ q. ap (lookup q) (empty_table-entries chains))
