-- ===== src/Pi/Cli.antt =====
-- cli_mac_command.c: the handlers of the commands. The arguments are what the parser has stored; the
-- two parameters of a message's way are whether `malloc` gives it memory and which writes succeed.
-- A handler has no result where the process exits.
pub mod Done
use pi_ssc_ssd_ssa.Common.{
  ℕ, zero, suc, ◌-◌, ◌^◌, Bool, true, false, ◌||◌, ◌&&◌, Option, none, some, List, [], ◌∷◌, ◌++◌,
  leb, ltb, ◌==◌, set, if◌then◌else◌, ◌>>=◌,
}
use pi_ssc_ssd_ssa.Public.{Entry, StaticMac, Mac, vlan_min_size, vlan_max_size}
use pi_ssc_ssd_ssa.Public.Compare.{same_text}
use pi_ssc_ssd_ssa.Public.Message.{
  Payload, nothing, int_arg, text, static_mac, Msg, message, mac_fwd_learn, mac_unfwd_unlearn,
  msgid_mac_add_addr, msgid_mac_clear_dyn, msgid_clear_vlan_mac, msgid_clear_inter_dyn,
  msgid_mac_inter_learn, msgid_mac_agetime,
}
use pi_ssc_ssd_ssa.Hlist.{Hlist}
use pi_ssc_ssd_ssa.Pi.Db.{Env, Db}
use pi_ssc_ssd_ssa.Pi.Local.{enable_text, disable_text, pi_update_local_db}
use pi_ssc_ssd_ssa.Pi.Show.{
  Printed, pi_show_all_mac, pi_show_vlan_mac, pi_show_mac_count, pi_show_static_mac,
  pi_show_mac_agetime,
}
use pi_ssc_ssd_ssa.Pi.Server.{Fd, pi_send_msg_ssc}

-- What a handler prints.
pub data Said : Type 0 where
  rows : List Printed → Said
  bad_vlan : Said
  bad_args : Said

-- `malloc` in `pi_send_msg_ssc`, and `write` by descriptor.
pub record Net : Type 0 where
  pub mem : Bool
  pub wrote : ℕ → Bool

-- The value of an int, by its bit pattern, is below the bound, or above it; a bound is not negative.
unfoldable pub int_lt : ℕ → ℕ → Bool
int_lt n bound = leb (2 ^ 31) n || ltb n bound

unfoldable pub int_gt : ℕ → ℕ → Bool
int_gt n bound = ltb n (2 ^ 31) && ltb bound n

-- The `strlen(buff) + 1` bytes at `buff`.
unfoldable pub c_string : List ℕ → List ℕ
c_string [] = []
c_string (b ∷ rest) = let more = c_string rest in if b == 0 then b ∷ [] else b ∷ more

-- The first bytes at an address.
unfoldable pub memcpy : ℕ → List ℕ → List ℕ
memcpy zero l = []
memcpy (suc n) [] = []
memcpy (suc n) (b ∷ l) = b ∷ memcpy n l

-- The commands, with their arguments.
pub data Command : Type 0 where
  show_table : Command
  show_vlan : ℕ → Command
  show_count : Command
  show_static : Command
  show_agetime : Command
  clear_dynamic : Command
  clear_vlan : ℕ → Command
  clear_interface : ℕ → Command
  learn : List ℕ → Command
  agetime : ℕ → Command
  set_static : Mac → ℕ → ℕ → Command

module _ (H : Hlist Entry) where
  -- The local database, the array of descriptors, what was sent and to which descriptors, and what
  -- was printed, the oldest first.
  pub record Console : Type 0 where
    pub db : Db H
    pub g_client : List Fd
    pub sent : List (Msg × List ℕ)
    pub said : List Said

  unfoldable pub print : Said → Console → Console
  print line c = record c { said = c.said ++ (line ∷ []) }

  unfoldable pub exec_show_rookie_mac_table_cmd : Console → Console
  exec_show_rookie_mac_table_cmd c = print (rows (pi_show_all_mac H c.db)) c

  unfoldable pub exec_show_rookie_mac_vlan_num_cmd : ℕ → Console → Console
  exec_show_rookie_mac_vlan_num_cmd vlan_num c =
      if int_lt vlan_num 1 || int_gt vlan_num vlan_max_size
      then print bad_vlan c
      else print (rows (pi_show_vlan_mac H vlan_num c.db)) c

  unfoldable pub exec_show_rookie_mac_count_cmd : Console → Console
  exec_show_rookie_mac_count_cmd c = print (rows (pi_show_mac_count H c.db)) c

  unfoldable pub exec_show_rookie_mac_static_cmd : Console → Console
  exec_show_rookie_mac_static_cmd c = print (rows (pi_show_static_mac H c.db)) c

  unfoldable pub exec_show_rookie_mac_agetime_cmd : Console → Console
  exec_show_rookie_mac_agetime_cmd c = print (rows (pi_show_mac_agetime H c.db)) c

  module _ (env : Env) (net : Net) where
    -- `pi_send_msg_ssc(type, ...)` and `pi_update_local_db(type, ...)`
    unfoldable pub send_msg : ℕ → Payload → Console → Option Console
    send_msg type p c = do
      m ← pi_send_msg_ssc net.mem net.wrote (message type p) c.g_client
      some (record c { sent = c.sent ++ (m ∷ []) })

    unfoldable pub update_db : ℕ → Payload → Console → Option Console
    update_db type p c = do db ← pi_update_local_db H env type p c.db; some (record c { db = db })

    unfoldable pub exec_clear_rookie_mac_dynamic_cmd : Console → Option Console
    exec_clear_rookie_mac_dynamic_cmd c = do
      c1 ← send_msg msgid_mac_clear_dyn nothing c
      update_db msgid_mac_clear_dyn nothing c1

    unfoldable pub exec_clear_rookie_mac_vlan_num_cmd : ℕ → Console → Option Console
    exec_clear_rookie_mac_vlan_num_cmd vlan_num c =
        if int_lt vlan_num vlan_min_size || int_gt vlan_num vlan_max_size
        then some (print bad_vlan c)
        else do
          c1 ← send_msg msgid_clear_vlan_mac (int_arg vlan_num) c
          update_db msgid_clear_vlan_mac (int_arg vlan_num) c1

    -- `num_inter | (0 << 16)` is `num_inter`.
    unfoldable pub exec_clear_rookie_mac_interface_num_cmd : ℕ → Console → Option Console
    exec_clear_rookie_mac_interface_num_cmd num_inter c = do
      c1 ← send_msg msgid_clear_inter_dyn (int_arg num_inter) c
      update_db msgid_clear_inter_dyn (int_arg num_inter) c1

    -- `junk` is `status`, which is not set; `str` are the bytes from the argument on.
    unfoldable pub cfg_rookie_mac_learn_cmd : ℕ → List ℕ → Console → Option Console
    cfg_rookie_mac_learn_cmd junk str c =
        let buff = set (memcpy 32 str) 31 0 in
        let bad = print bad_args c in
        let (status, c0) =
          if same_text 6 buff enable_text
          then (mac_fwd_learn, c)
          else if same_text 7 buff disable_text
          then (mac_unfwd_unlearn, c)
          else (junk, bad) in
        (do
          c1 ← send_msg msgid_mac_inter_learn (int_arg status) c0
          update_db msgid_mac_inter_learn (text (c_string buff)) c1)

    unfoldable pub cfg_rookie_mac_table_agetime_num_cmd : ℕ → Console → Option Console
    cfg_rookie_mac_table_agetime_num_cmd age_time c = do
      c1 ← send_msg msgid_mac_agetime (int_arg age_time) c
      update_db msgid_mac_agetime (int_arg age_time) c1

    unfoldable pub cfg_rookie_mac_table_static__cmd : Mac → ℕ → ℕ → Console → Option Console
    cfg_rookie_mac_table_static__cmd mac vlan_id port_id c =
        let tmp : StaticMac = record { mac = mac; vlan_id = vlan_id; port_id = port_id } in
        (do
          c1 ← send_msg msgid_mac_add_addr (static_mac tmp) c
          update_db msgid_mac_add_addr (static_mac tmp) c1)

  unfoldable pub command : Env → Net → ℕ → Command → Console → Option Console
  command env net junk show_table c = some (exec_show_rookie_mac_table_cmd c)
  command env net junk (show_vlan n) c = some (exec_show_rookie_mac_vlan_num_cmd n c)
  command env net junk show_count c = some (exec_show_rookie_mac_count_cmd c)
  command env net junk show_static c = some (exec_show_rookie_mac_static_cmd c)
  command env net junk show_agetime c = some (exec_show_rookie_mac_agetime_cmd c)
  command env net junk clear_dynamic c = exec_clear_rookie_mac_dynamic_cmd env net c
  command env net junk (clear_vlan n) c = exec_clear_rookie_mac_vlan_num_cmd env net n c
  command env net junk (clear_interface n) c = exec_clear_rookie_mac_interface_num_cmd env net n c
  command env net junk (learn str) c = cfg_rookie_mac_learn_cmd env net junk str c
  command env net junk (agetime n) c = cfg_rookie_mac_table_agetime_num_cmd env net n c
  command env net junk (set_static mac vlan_id port_id) c =
      cfg_rookie_mac_table_static__cmd env net mac vlan_id port_id c
