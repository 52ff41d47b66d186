-- ===== src/Pi/Cli/Done.antt =====
-- What a command comes to: the message that it sends, and the change of the local database.
use pi_ssc_ssd_ssa.Common.{
  ℕ, ◌≡◌, refl, sym, inl, inr, Bool, true, false, ◌||◌, Option, none, some, List, [], ◌∷◌, ◌++◌,
  set, ◌>>=◌, Bool-cases,
}
use mathlib.Core.List.{append-nil}
use pi_ssc_ssd_ssa.Public.{Entry, vlan_min_size, vlan_max_size}
use pi_ssc_ssd_ssa.Public.Compare.{same_text}
use pi_ssc_ssd_ssa.Public.Message.{
  Payload, nothing, int_arg, text, static_mac, Msg, message, mac_fwd_learn, mac_unfwd_unlearn,
  msgid_mac_add_addr, msgid_mac_clear_dyn, msgid_clear_vlan_mac, msgid_clear_inter_dyn,
  msgid_mac_inter_learn, msgid_mac_agetime,
}
use pi_ssc_ssd_ssa.Hlist.{Hlist}
use pi_ssc_ssd_ssa.Pi.Db.{Env, Db, IsDb}
use pi_ssc_ssd_ssa.Pi.Local.{
  enable_text, disable_text, learn_status, pi_update_local_db, clear_local_mac, set_static_addr_of,
  learn_sta_of, set_agetime_of,
}
use pi_ssc_ssd_ssa.Pi.Invariant.{pi_update_local_db-IsDb}
use pi_ssc_ssd_ssa.Pi.Server.{Fd, send_loop, pi_send_msg_ssc}
use pi_ssc_ssd_ssa.Pi.Show.{pi_show_vlan_mac}
use pi_ssc_ssd_ssa.Pi.Cli.{
  Said, rows, bad_args, bad_vlan, Net, int_lt, int_gt, c_string, memcpy, Console, print, send_msg,
  update_db, exec_show_rookie_mac_table_cmd, exec_show_rookie_mac_vlan_num_cmd,
  exec_show_rookie_mac_count_cmd, exec_show_rookie_mac_static_cmd, exec_show_rookie_mac_agetime_cmd,
  exec_clear_rookie_mac_dynamic_cmd, exec_clear_rookie_mac_vlan_num_cmd,
  exec_clear_rookie_mac_interface_num_cmd, cfg_rookie_mac_learn_cmd,
  cfg_rookie_mac_table_agetime_num_cmd, cfg_rookie_mac_table_static__cmd, Command, show_table,
  show_vlan, show_count, show_static, show_agetime, clear_dynamic, clear_vlan, clear_interface,
  learn, agetime, set_static, command,
}

-- The message for the SSC, and what the local database gets under the same type.
pub record Order : Type 0 where
  pub to_ssc : Msg
  pub local : Payload

abbrev order_of : ℕ → Payload → Option Order
order_of type p = some (record { to_ssc = message type p; local = p })

-- The bytes of the argument that the handler looks at.
abbrev pub argument : List ℕ → List ℕ
argument str = set (memcpy 32 str) 31 0

-- The status that is sent for an argument; `junk` for one that is neither of the two texts.
abbrev pub status_or : ℕ → Option ℕ → ℕ
status_or junk none = junk
status_or junk (some status) = status

abbrev pub vlan_order : Bool → ℕ → Option Order
vlan_order true n = none
vlan_order false n = order_of msgid_clear_vlan_mac (int_arg n)

-- What each command asks for; nothing is asked for by those that show, and for a VLAN out of range.
abbrev pub order : ℕ → Command → Option Order
order junk clear_dynamic = order_of msgid_mac_clear_dyn nothing
order junk (clear_vlan n) = vlan_order (int_lt n vlan_min_size || int_gt n vlan_max_size) n
order junk (clear_interface n) = order_of msgid_clear_inter_dyn (int_arg n)
order junk (learn str) = some (record {
  to_ssc = message msgid_mac_inter_learn (int_arg (status_or junk (learn_status (argument str))));
  local = text (c_string (argument str));
})
order junk (agetime n) = order_of msgid_mac_agetime (int_arg n)
order junk (set_static mac vlan_id port_id) =
    order_of msgid_mac_add_addr
      (static_mac (record { mac = mac; vlan_id = vlan_id; port_id = port_id }))
order junk other = none

module _ (H : Hlist Entry) where
  abbrev pub sends : Option Order → List ℕ → List (Msg × List ℕ)
  sends none fds = []
  sends (some o) fds = (o.to_ssc, fds) ∷ []

  abbrev pub changes : Env → Option Order → Db H → Option (Db H)
  changes env none db = some db
  changes env (some o) db = pi_update_local_db H env o.to_ssc.msg_type o.local db

  -- The database is in order and changed as asked, and at most one message went to the clients.
  pub record Done (env : Env) (o : Option Order) (fds : List ℕ) (c c' : Console H) : Type 0 where
    pub valid : IsDb H c'.db
    pub changed : changes env o c.db ≡ some c'.db
    pub sent : c'.sent ≡ c.sent ++ sends o fds
    pub clients : c'.g_client ≡ c.g_client

  send_update :
      (env : Env) (net : Net) (type : ℕ) (p q : Payload) (c : Console H) (db : Db H)
      (listening : Fd) (l : List Fd)
      → net.mem ≡ true
      → c.g_client ≡ listening ∷ l
      → pi_update_local_db H env type q c.db ≡ some db
      → (send_msg H env net type p c >>= update_db H env net type q)
        ≡ some (record c {
          db = db;
          sent = c.sent ++ ((message type p, send_loop net.wrote listening l) ∷ []);
        })
  unfolding send_msg update_db pi_send_msg_ssc
  send_update env net type p q c db listening l m g u = simp (m, g, u)

  -- An order that is sent and carried out.
  ordered :
      (env : Env) (net : Net) (type : ℕ) (p q : Payload) (c : Console H) (db : Db H)
      (listening : Fd) (l : List Fd)
      → net.mem ≡ true
      → c.g_client ≡ listening ∷ l
      → IsDb H c.db
      → pi_update_local_db H env type q c.db ≡ some db
      → (c' : Console H) × ((send_msg H env net type p c >>= update_db H env net type q) ≡ some c')
        × Done env
            (some (record { to_ssc = message type p; local = q }))
            (send_loop net.wrote listening l)
            c
            c'
  ordered env net type p q c db listening l m g v u = (
    record c { db = db; sent = c.sent ++ ((message type p, send_loop net.wrote listening l) ∷ []) },
    send_update env net type p q c db listening l m g u,
    record {
      valid = pi_update_local_db-IsDb H env type q c.db db v u;
      changed = u;
      sent = refl;
      clients = refl;
    },
  )

  -- A line that is printed.
  printed :
      (env : Env) (fds : List ℕ) (line : Said) (c : Console H)
      → IsDb H c.db
      → Done env none fds c (print H line c)
  unfolding print
  printed env fds line c v = record {
    valid = v;
    changed = refl;
    sent = sym (append-nil c.sent);
    clients = refl;
  }

  module _ (env : Env) (net : Net) (junk : ℕ) (listening : Fd) (l : List Fd) where
    -- What is to be shown of a command: it comes to its end, and did what it asks for.
    abbrev Returns : Command → Console H → Type 0
    Returns cmd c =
        (c' : Console H) × (command H env net junk cmd c ≡ some c')
        × Done env (order junk cmd) (send_loop net.wrote listening l) c c'

    show_vlan-Returns : (n : ℕ) (c : Console H) → IsDb H c.db → Returns (show_vlan n) c
    unfolding command exec_show_rookie_mac_vlan_num_cmd
    show_vlan-Returns n c v = elim (Bool-cases (int_lt n 1 || int_gt n vlan_max_size)) [
      | inl bad ↦ (print H bad_vlan c, rw bad refl, printed env _ _ c v)
      | inr good ↦
          let line = rows (pi_show_vlan_mac H n c.db) in
          (print H line c, rw good refl, printed env _ line c v)
    ]

    clear_vlan-Returns :
        (n : ℕ) (c : Console H)
        → net.mem ≡ true
        → c.g_client ≡ listening ∷ l
        → IsDb H c.db
        → Returns (clear_vlan n) c
    unfolding command exec_clear_rookie_mac_vlan_num_cmd pi_update_local_db clear_local_mac
    clear_vlan-Returns n c m g v =
        elim (Bool-cases (int_lt n vlan_min_size || int_gt n vlan_max_size)) [
          | inl bad ↦ (print H bad_vlan c, rw bad refl, rw bad (printed env _ _ c v))
          | inr good ↦
              let (c', run, d) =
                ordered env net msgid_clear_vlan_mac (int_arg n) (int_arg n) c _ listening l m g v
                  refl in
              (c', rw good run, rw good d)
        ]

    learn-Returns :
        (str : List ℕ) (c : Console H)
        → net.mem ≡ true
        → c.g_client ≡ listening ∷ l
        → IsDb H c.db
        → Returns (learn str) c
    unfolding command cfg_rookie_mac_learn_cmd print pi_update_local_db learn_sta_of learn_status
    learn-Returns str c m g v =
        let buff = argument str in
        let q = text (c_string buff) in
        let send = λ (status : ℕ).
          ordered env net msgid_mac_inter_learn (int_arg status) q c _ listening l m g v refl in
        elim (Bool-cases (same_text 6 buff enable_text)) [
          | inl on ↦ let (c', run, d) = send mac_fwd_learn in (c', rw on run, rw on d)
          | inr not_on ↦ elim (Bool-cases (same_text 7 buff disable_text)) [
            | inl off ↦
                let (c', run, d) = send mac_unfwd_unlearn in
                (c', rw (not_on, off) run, rw (not_on, off) d)
            | inr neither ↦
                let told = print H bad_args c in
                let (c', run, d) =
                  ordered env net msgid_mac_inter_learn (int_arg junk) q told _ listening l m g v
                    refl in
                (
                  c',
                  rw (not_on, neither) run,
                  rw (not_on, neither)
                      (record {
                        valid = d.valid;
                        changed = d.changed;
                        sent = d.sent;
                        clients = d.clients;
                      }),
                )
          ]
        ]

    -- Let there be memory for the message. Then every command comes to its end; it changes the
    -- database as the order says that stands for it, sends the message of the order, if there is one,
    -- to the clients, and leaves the database in order.
    pub command-Done :
        (cmd : Command) (c : Console H)
        → net.mem ≡ true
        → c.g_client ≡ listening ∷ l
        → IsDb H c.db
        → Returns cmd c
    unfolding command exec_show_rookie_mac_table_cmd exec_show_rookie_mac_count_cmd
        exec_show_rookie_mac_static_cmd exec_show_rookie_mac_agetime_cmd
        exec_clear_rookie_mac_dynamic_cmd exec_clear_rookie_mac_interface_num_cmd
        cfg_rookie_mac_table_agetime_num_cmd cfg_rookie_mac_table_static__cmd pi_update_local_db
        clear_local_mac set_static_addr_of set_agetime_of
    command-Done show_table c m g v = (_, refl, printed env _ _ c v)
    command-Done (show_vlan n) c m g v = show_vlan-Returns n c v
    command-Done show_count c m g v = (_, refl, printed env _ _ c v)
    command-Done show_static c m g v = (_, refl, printed env _ _ c v)
    command-Done show_agetime c m g v = (_, refl, printed env _ _ c v)
    command-Done clear_dynamic c m g v =
        ordered env net msgid_mac_clear_dyn nothing nothing c _ listening l m g v refl
    command-Done (clear_vlan n) c m g v = clear_vlan-Returns n c m g v
    command-Done (clear_interface n) c m g v =
        ordered env net msgid_clear_inter_dyn (int_arg n) (int_arg n) c _ listening l m g v refl
    command-Done (learn str) c m g v = learn-Returns str c m g v
    command-Done (agetime n) c m g v =
        ordered env net msgid_mac_agetime (int_arg n) (int_arg n) c _ listening l m g v refl
    command-Done (set_static mac vlan_id port_id) c m g v =
        let p = static_mac (record { mac = mac; vlan_id = vlan_id; port_id = port_id }) in
        ordered env net msgid_mac_add_addr p p c _ listening l m g v refl
