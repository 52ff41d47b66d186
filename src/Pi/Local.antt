-- ===== src/Pi/Local.antt =====
-- pi_comm_ssc.c: the operations of the local database, and `pi_update_local_db`, which calls them
-- through the table of functions.
use pi_ssc_ssd_ssa.Common.{
  ℕ, zero, suc, ◌+◌, Bool, true, Option, none, some, List, [], ◌∷◌, ◌==◌, set, if◌then◌else◌,
}
use pi_ssc_ssd_ssa.Public.{Entry, StaticMac, zero_entry, port_num}
use pi_ssc_ssd_ssa.Public.Compare.{same_text}
use pi_ssc_ssd_ssa.Public.Message.{
  Payload, int_arg, text, static_mac, mac_fwd_learn, mac_unfwd_unlearn, msgid_mac_add_addr,
  msgid_mac_clear_dyn, msgid_clear_vlan_mac, msgid_clear_inter_dyn, msgid_mac_inter_learn,
  msgid_mac_agetime,
}
use pi_ssc_ssd_ssa.Hlist.{Hlist}
use pi_ssc_ssd_ssa.Table.{insert_hash_table}
use pi_ssc_ssd_ssa.Table.Clear.{clear_table}
use pi_ssc_ssd_ssa.Pi.Db.{Env, Db, inc32, dec32}

-- `clear_dyn_mac`, `clear_vlan_mac`, `clear_inter_mac`: `true` where the function unlinks the entry
-- and returns SUCC, `false` where it returns ERR.
unfoldable pub clear_dyn_mac : Entry → Bool
clear_dyn_mac a = true

unfoldable pub clear_vlan_mac : ℕ → Entry → Bool
clear_vlan_mac vlan a = a.vlan_id == vlan

unfoldable pub clear_inter_mac : ℕ → Entry → Bool
clear_inter_mac inface a = a.port_id == inface

-- The texts "enable" and "disable".
abbrev pub enable_text : List ℕ
enable_text = b'e' ∷ b'n' ∷ b'a' ∷ b'b' ∷ b'l' ∷ b'e' ∷ 0 ∷ []

abbrev pub disable_text : List ℕ
disable_text = b'd' ∷ b'i' ∷ b's' ∷ b'a' ∷ b'b' ∷ b'l' ∷ b'e' ∷ 0 ∷ []

-- The status that a text asks for; `none` where it is neither of the two.
unfoldable pub learn_status : List ℕ → Option ℕ
learn_status str =
    if same_text 6 str enable_text
    then some mac_fwd_learn
    else if same_text 7 str disable_text
    then some mac_unfwd_unlearn
    else none

-- `for (i = 0; i < PORT_NUM; i++)`, which an unknown text leaves at once: rounds left, and `i`.
unfoldable pub learn_loop : ℕ → ℕ → List ℕ → List ℕ → List ℕ
learn_loop zero i str ports = ports
learn_loop (suc n) i str ports = elim (learn_status str) [
  | some status ↦ learn_loop n (i + 1) str (set ports i status)
  | none ↦ ports
]

module _ (H : Hlist Entry) where
  -- The loops of `call_clear_local_mac`: the dynamic table, and then the static table unless only
  -- dynamic addresses are to go.
  unfoldable pub call_clear_local_mac : ℕ → (Entry → Bool) → Db H → Db H
  call_clear_local_mac type fun db =
      let (dyn, dyn_count) = clear_table H fun dec32 db.dyn_tbl db.dyn_addr_count in
      let (stat, static_count) = clear_table H fun dec32 db.static_tbl db.static_addr_count in
      let db' = record db { dyn_tbl = dyn; dyn_addr_count = dyn_count } in
      if type == msgid_mac_clear_dyn
      then db'
      else record db' { static_tbl = stat; static_addr_count = static_count }

  -- Takes no mutex, and neither does `pi_local_set_agetime`; each is one step here (Pi.Race has the
  -- rounds of the loop).
  unfoldable pub pi_local_learn_sta : List ℕ → Db H → Db H
  pi_local_learn_sta str db = record db { port_status = learn_loop port_num 0 str db.port_status }

  unfoldable pub pi_local_set_agetime : ℕ → Db H → Db H
  pi_local_set_agetime age db = record db { age_time = age }

  -- Insert into the static table, and count a new entry.
  unfoldable pub add_static : Env → Entry → Db H → Db H
  add_static env e db =
      let (t, old) = insert_hash_table H env.junk e db.static_tbl in
      record db {
        static_tbl = t;
        static_addr_count = if old then db.static_addr_count else inc32 db.static_addr_count;
      }

  unfoldable pub add_dyn : Env → Entry → Db H → Db H
  add_dyn env e db =
      let (t, old) = insert_hash_table H env.junk e db.dyn_tbl in
      record db {
        dyn_tbl = t;
        dyn_addr_count = if old then db.dyn_addr_count else inc32 db.dyn_addr_count;
      }

  -- `memset(tmp, 0, ...)` and three assignments
  abbrev pub static_entry : StaticMac → Entry
  static_entry m = record zero_entry { mac = m.mac; vlan_id = m.vlan_id; port_id = m.port_id }

  unfoldable pub pi_local_set_static_addr : Env → StaticMac → Db H → Db H
  pi_local_set_static_addr env m db = if env.mem then add_static env (static_entry m) db else db

  -- `none`: the data is not the structure that the function reads behind the pointer.
  unfoldable pub clear_local_mac : ℕ → Payload → Db H → Option (Db H)
  clear_local_mac type (int_arg n) db =
      if type == msgid_mac_clear_dyn
      then some (call_clear_local_mac type clear_dyn_mac db)
      else if type == msgid_clear_vlan_mac
      then some (call_clear_local_mac type (clear_vlan_mac n) db)
      else if type == msgid_clear_inter_dyn
      then some (call_clear_local_mac type (clear_inter_mac n) db)
      else some db
  clear_local_mac type p db =
      if type == msgid_mac_clear_dyn
      then some (call_clear_local_mac type clear_dyn_mac db)
      else if type == msgid_clear_vlan_mac
      then none
      else if type == msgid_clear_inter_dyn
      then none
      else some db

  unfoldable pub set_static_addr_of : Env → Payload → Db H → Option (Db H)
  set_static_addr_of env (static_mac m) db = some (pi_local_set_static_addr env m db)
  set_static_addr_of env p db = none

  unfoldable pub learn_sta_of : Payload → Db H → Option (Db H)
  learn_sta_of (text str) db = some (pi_local_learn_sta str db)
  learn_sta_of p db = none

  unfoldable pub set_agetime_of : Payload → Db H → Option (Db H)
  set_agetime_of (int_arg n) db = some (pi_local_set_agetime n db)
  set_agetime_of p db = none

  -- `g_mac_local_db.pi_local_func[type](type, data, len)`; the table holds six functions, and a call
  -- of another entry is a fault, `none`.
  unfoldable pub pi_update_local_db : Env → ℕ → Payload → Db H → Option (Db H)
  pi_update_local_db env type p db =
      if type == msgid_mac_add_addr
      then set_static_addr_of env p db
      else if type == msgid_mac_clear_dyn
      then clear_local_mac type p db
      else if type == msgid_clear_vlan_mac
      then clear_local_mac type p db
      else if type == msgid_clear_inter_dyn
      then clear_local_mac type p db
      else if type == msgid_mac_inter_learn
      then learn_sta_of p db
      else if type == msgid_mac_agetime
      then set_agetime_of p db
      else none
