-- ===== src/Ssc/Db.antt =====
-- ssc/ssc_db_manger.c: the database of the SSC. An operation that would wait for a mutex which
-- nothing gives back has no result, `none`.
use pi_ssc_ssd_ssa.Common.{
  ◌>>=◌, ℕ, Bool, true, false, Option, none, some, List, set, ◌==◌, if◌then◌else◌,
}
use pi_ssc_ssd_ssa.Public.{Entry, StaticMac, Key, key_of, zero_entry}
use pi_ssc_ssd_ssa.Public.Compare.{memcmp_key, strncmp_key}
use pi_ssc_ssd_ssa.Public.Hash.{hash_function}
use pi_ssc_ssd_ssa.Hlist.{Hlist}
use pi_ssc_ssd_ssa.Hlist.Loops.{change_loop, clear_loop}
use pi_ssc_ssd_ssa.Table.{Table, at, move_port, empty_table}
use pi_ssc_ssd_ssa.Table.Clear.{clear_table}
use pi_ssc_ssd_ssa.Pi.Db.{Env}

-- `#define STATIC_TYPE (1<<6)`
abbrev pub static_type : ℕ
static_type = 64

-- The key of a `base_static_mac_t`, and the entry that `ssc_local_add_addr` makes of one.
abbrev pub static_key : StaticMac → Key
static_key m = record { mac = m.mac; vlan_id = m.vlan_id }

abbrev pub ssc_static_entry : StaticMac → Entry
ssc_static_entry m = record zero_entry {
  mac = m.mac;
  addr_type = static_type;
  port_id = m.port_id;
  vlan_id = m.vlan_id;
}

-- The tests of the three deleting loops.
unfoldable pub any_entry : Entry → Bool
any_entry a = true

unfoldable pub in_vlan : ℕ → Entry → Bool
in_vlan vlan a = a.vlan_id == vlan

unfoldable pub on_port : ℕ → Entry → Bool
on_port phy_id a = a.port_id == phy_id

-- Nothing is counted when an entry goes.
abbrev pub no_count : Unit {0} → Unit {0}
no_count s = s

module _ (H : Hlist Entry) where
  open H use {Head, walk}

  -- `mac_opra_class_t`; `locked` is the state of its mutex.
  pub record SscDb : Type 0 where
    pub age_time : ℕ
    pub port_status : List ℕ
    pub dyn_addr_count : ℕ
    pub static_addr_count : ℕ
    pub static_tbl : Table H
    pub dyn_tbl : Table H
    pub locked : Bool

  unfoldable pub lock : SscDb → Option SscDb
  lock db = if db.locked then none else some (record db { locked = true })

  unfoldable pub unlock : SscDb → SscDb
  unlock db = record db { locked = false }

  -- `ssc_db_init`, on a database whose ports and age time are the zeros of a global.
  unfoldable pub ssc_db_init : SscDb → SscDb
  ssc_db_init db = record db {
    dyn_addr_count = 0;
    static_addr_count = 0;
    static_tbl = empty_table H;
    dyn_tbl = empty_table H;
    locked = false;
  }

  -- The result is SUCC (`true`) or ERR.
  unfoldable pub ssc_find_hash_key : ℕ → StaticMac → Table H → Table H × Bool
  ssc_find_hash_key index m t =
      let h = at H t index in
      let (h', found) =
        change_loop H (memcmp_key (static_key m)) (move_port m.port_id) 0 (walk h) h in
      if H.no_first h then (t, false) else (set t index h', found)

  unfoldable pub find_hash_key_dyn : ℕ → Entry → Table H → Table H × Bool
  find_hash_key_dyn index e t =
      let h = at H t index in
      let (h', found) = change_loop H (strncmp_key (key_of e)) (move_port e.port_id) 0 (walk h) h in
      if H.no_first h then (t, false) else (set t index h', found)

  -- The branch at the end of both functions that add.
  unfoldable pub link_entry : ℕ → Entry → Table H → Table H
  link_entry index e t =
      let h = at H t index in
      if H.no_first h then set t index (H.add_head e h) else set t index (H.add_before 0 e h)

  unfoldable pub ssc_del_dyn_addr : SscDb → Option SscDb
  ssc_del_dyn_addr db = do
    d ← lock db
    some (unlock (record d { dyn_tbl = (clear_table H any_entry no_count d.dyn_tbl tt).0 }))

  unfoldable pub ssc_add_dyn_addr : Env → Entry → SscDb → Option SscDb
  ssc_add_dyn_addr env e db = do
    let index = hash_function env.junk e.mac e.vlan_id
    d ← lock db
    let (t, found) = find_hash_key_dyn index e d.dyn_tbl
    if found
        then some (unlock (record d { dyn_tbl = t }))
        else if env.mem
        then some (unlock (record d { dyn_tbl = link_entry index e t }))
        else some (unlock (record d { dyn_tbl = t }))

  -- Where `malloc` fails the function returns and keeps the mutex.
  unfoldable pub ssc_local_add_addr : Env → StaticMac → SscDb → Option SscDb
  ssc_local_add_addr env m db = do
    let index = hash_function env.junk m.mac m.vlan_id
    d ← lock db
    let (t, found) = ssc_find_hash_key index m d.static_tbl
    if found
        then some (unlock (record d { static_tbl = t }))
        else if env.mem
        then some (unlock (record d { static_tbl = link_entry index (ssc_static_entry m) t }))
        else some (record d { static_tbl = t })

  -- The loop goes on after a hit.
  unfoldable pub ssc_del_age_entry : Env → Entry → SscDb → Option SscDb
  ssc_del_age_entry env e db = do
    let index = hash_function env.junk e.mac e.vlan_id
    d ← lock db
    let h = at H d.dyn_tbl index
    if H.no_first h
        then some (unlock d)
        else some (
            unlock (record d {
              dyn_tbl =
                  set d.dyn_tbl index
                    (clear_loop H (memcmp_key (key_of e)) no_count 0 (walk h) h tt).0;
            }))

  unfoldable pub ssc_del_vlan_addr : ℕ → SscDb → Option SscDb
  ssc_del_vlan_addr vlan db = do
    d ← lock db
    some (unlock (record d { dyn_tbl = (clear_table H (in_vlan vlan) no_count d.dyn_tbl tt).0 }))

  unfoldable pub ssc_del_int_addr : ℕ → SscDb → Option SscDb
  ssc_del_int_addr phy_id db = do
    d ← lock db
    some (unlock (record d { dyn_tbl = (clear_table H (on_port phy_id) no_count d.dyn_tbl tt).0 }))
