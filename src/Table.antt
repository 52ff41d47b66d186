-- ===== src/Table.antt =====
-- pi/hash_tab_oper.c: the table of MAC addresses, an array of HASH_SIZE chains. The functions take
-- the array and give it back with their result; `junk` is the content of the two bytes that
-- `hash_function` leaves unset. An index that `hash_function` returned lies in the array.
pub mod Chain
pub mod Place
pub mod Insert
pub mod Delete
pub mod Text
pub mod Clear
pub mod Replay
use pi_ssc_ssd_ssa.Common.{
  ℕ, ◌==◌, Bool, true, false, ◌&&◌, List, map, flatten, get_or, set, replicate, if◌then◌else◌,
}
use pi_ssc_ssd_ssa.Public.{Entry, Key, key_of, hash_size}
use pi_ssc_ssd_ssa.Public.Compare.{memcmp_key, strncmp_key}
use pi_ssc_ssd_ssa.Public.Hash.{hash_function}
use pi_ssc_ssd_ssa.Hlist.{Hlist}
use pi_ssc_ssd_ssa.Hlist.Loops.{change_loop, remove_loop}

-- `assist->port_id = entry->port_id`
abbrev pub move_port : ℕ → Entry → Entry
move_port port a = record a { port_id = port }

-- The test of `find_hash_key_del`.
unfoldable pub del_test : Entry → Entry → Bool
del_test e a = strncmp_key (key_of e) a && a.port_id == e.port_id

module _ (H : Hlist Entry) where
  open H use {Head, walk}

  abbrev pub Table : Type 0
  Table = List Head

  -- `head[index]`
  abbrev pub at : Table → ℕ → Head
  at t i = get_or t i H.init

  -- All the entries, in the order in which a loop over the array and its chains meets them.
  unfoldable pub entries : Table → List Entry
  entries t = flatten (map walk t)

  -- `INIT_HLIST_HEAD` for each index
  unfoldable pub empty_table : Table
  empty_table = replicate hash_size H.init

  -- The result is 1 (`true`) if the key was found, and its port set.
  unfoldable pub find_hash_key : ℕ → Entry → Table → Table × Bool
  find_hash_key index e t =
      let h = at t index in
      let (h', found) = change_loop H (memcmp_key (key_of e)) (move_port e.port_id) 0 (walk h) h in
      if H.no_first h then (t, false) else (set t index h', found)

  -- The result is SUCC (`true`) if an entry was unlinked, else ERR.
  unfoldable pub find_hash_key_del : ℕ → Entry → Table → Table × Bool
  find_hash_key_del index e t =
      let h = at t index in
      let (h', found) = remove_loop H (del_test e) 0 (walk h) h in
      if H.no_first h then (t, false) else (set t index h', found)

  -- The result is 1 (`true`) if the key was there, and 0 if the entry was linked in.
  unfoldable pub insert_hash_table : ℕ → Entry → Table → Table × Bool
  insert_hash_table junk e t =
      let index = hash_function junk e.mac e.vlan_id in
      let (t', ret) = find_hash_key index e t in
      let h = at t' index in
      if ret
      then (t', true)
      else if H.no_first h
      then (set t' index (H.add_head e h), false)
      else (set t' index (H.add_before 0 e h), false)

  unfoldable pub del_hash_entry : ℕ → Entry → Table → Table × Bool
  del_hash_entry junk e t = find_hash_key_del (hash_function junk e.mac e.vlan_id) e t
