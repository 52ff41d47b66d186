-- ===== src/Pi/Server.antt =====
-- pi_comm_ssc.c: the array of descriptors `g_client`, which place 0 shares with the listening socket
-- (`cli_comm_ssc_init`), and the sending of a message to all clients (`pi_send_msg_ssc`). What the
-- system answers in a round is an argument.
pub mod Places
pub mod Bounds
pub mod Overflow
pub mod Calm
pub mod Clients
use pi_ssc_ssd_ssa.Common.{
  ℕ, zero, suc, ◌+◌, ◌-◌, Bool, true, false, Option, none, some, List, [], ◌∷◌, leb, ltb, ◌==◌,
  get_or, set, if◌then◌else◌, replicate,
}
use pi_ssc_ssd_ssa.Public.Message.{Msg}
use pi_ssc_ssd_ssa.MsgList.{ListHead}
use pi_ssc_ssd_ssa.Pi.Receive.{MsgQueue, Inbox, pi_recevie_msg_ssc}

abbrev pub max_client : ℕ
max_client = 5

-- `g_client[i].fd`, with none for a negative number.
abbrev pub Fd : Type 0
Fd = Option ℕ

abbrev pub is_open : Fd → Bool
is_open none = false
is_open (some f) = true

abbrev pub same_fd : Fd → Fd → Bool
same_fd none none = true
same_fd none (some g) = false
same_fd (some f) none = false
same_fd (some f) (some g) = f == g

-- `for (i = 1; i < MAX_CLIENT; i++)` of `pi_send_msg_ssc`, from the descriptor at `i - 1` and those
-- from `i` on: the descriptors that are passed to `write`. `wrote` tells which writes succeed.
unfoldable pub send_loop : (ℕ → Bool) → Fd → List Fd → List ℕ
send_loop wrote last [] = []
send_loop wrote last (none ∷ rest) = send_loop wrote none rest
send_loop wrote last (some f ∷ rest) =
    let more = send_loop wrote (some f) rest in
    if same_fd (some f) last then more else if wrote f then f ∷ more else f ∷ []

-- The message and the descriptors that it is written to; `none` where `malloc` fails and the process
-- exits.
unfoldable pub pi_send_msg_ssc : Bool → (ℕ → Bool) → Msg → List Fd → Option (Msg × List ℕ)
pi_send_msg_ssc mem wrote m [] = none
pi_send_msg_ssc mem wrote m (listening ∷ clients) =
    if mem then some (m, send_loop wrote listening clients) else none

-- The descriptors that are closed before the process exits.
unfoldable pub sig_handler : List Fd → List ℕ
sig_handler [] = []
sig_handler (none ∷ rest) = sig_handler rest
sig_handler (some f ∷ rest) = f ∷ sig_handler rest

-- What the system answers in one round: the result of `poll` (0 stands for -1 too), the POLLIN flags
-- by index, the result of `accept`, and of `read` by index: a message, or none for n <= 0.
pub record Answers : Type 0 where
  pub n_ready : ℕ
  pub pollin : ℕ → Bool
  pub accepted : Fd
  pub reads : ℕ → Option Msg

-- The places from 1 on, those of clients.
abbrev pub clients : List Fd → List Fd
clients [] = []
clients (listening ∷ rest) = rest

-- The first place from `i` on, among the rest of the array, with no descriptor: `i` after
-- `for (i = 1; i < MAX_CLIENT; i++) { if (g_client[i].fd < 0) { ... break; } }`.
unfoldable pub free_place : ℕ → List Fd → ℕ
free_place i [] = i
free_place i (none ∷ rest) = i
free_place i (some f ∷ rest) = free_place (i + 1) rest

module _ (L : ListHead MsgQueue) where
  -- The array, the variables `maxi` and `tmp`, and the queue of `pi_recevie_msg_ssc`.
  pub record Server : Type 0 where
    pub g_client : List Fd
    pub maxi : ℕ
    pub tmp : Fd
    pub inbox : Inbox L

  -- `fault`: an access past the end of the array.
  pub data Round : Type 0 where
    went : Server → Round
    fault : Round

  -- Before the loop; `junk` is `tmp`, which is not set.
  unfoldable pub listen_start : ℕ → Fd → Inbox L → Server
  listen_start sock_fd junk box = record {
    g_client = some sock_fd ∷ replicate (max_client - 1) none;
    maxi = 0;
    tmp = junk;
    inbox = box;
  }

  -- `for (i = 1; i <= maxi; i++)`: rounds left, `i`, and `n_ready`. Memory for the messages: `mem`.
  unfoldable pub read_loop : Bool → (ℕ → Bool) → (ℕ → Option Msg) → ℕ → ℕ → ℕ → Server → Server
  read_loop mem pollin reads zero i n_ready s = s
  read_loop mem pollin reads (suc n) i n_ready s = elim (get_or s.g_client i none) [
    | none ↦ read_loop mem pollin reads n (i + 1) n_ready s
    | some f ↦ elim (pollin i) [
      | false ↦ read_loop mem pollin reads n (i + 1) n_ready s
      | true ↦ elim (reads i) [
        | none ↦ record s { g_client = set s.g_client i none }
        | some m ↦
            let s' = record s { inbox = pi_recevie_msg_ssc L mem mem (some m) s.inbox } in
            elim (leb n_ready 1) [
              | true ↦ s'
              | false ↦ read_loop mem pollin reads n (i + 1) (n_ready - 1) s'
            ]
      ]
    ]
  ]

  -- The place that was found gets the number in `tmp`, also where no client came.
  unfoldable pub add_client : ℕ → Server → Server
  add_client i s = record s {
    g_client = set s.g_client i s.tmp;
    maxi = if ltb s.maxi i then i else s.maxi;
  }

  -- From `if (--n_ready <= 0)` on.
  unfoldable pub read_clients : Bool → Answers → Server → Server
  read_clients mem a s =
      let read = read_loop mem a.pollin a.reads s.maxi 1 (a.n_ready - 1) s in
      if leb a.n_ready 1 then s else read

  -- From the search for a free place on: `g_client[i].events` is written at the place it ends at.
  unfoldable pub place_client : Bool → Answers → Server → Round
  place_client mem a s =
      let i = free_place 1 (clients s.g_client) in
      if ltb i max_client then went (read_clients mem a (add_client i s)) else fault

  -- The body of `while (1)`. Where `accept` fails, the round ends there.
  unfoldable pub poll_round : Bool → Answers → Server → Round
  poll_round mem a s =
      if a.pollin 0
      then (elim a.accepted [
        | none ↦ went (record s { tmp = none })
        | some f ↦ place_client mem a (record s { tmp = some f })
      ])
      else place_client mem a s

  unfoldable pub poll_rounds : Bool → List Answers → Server → Round
  poll_rounds mem [] s = went s
  poll_rounds mem (a ∷ as') s = elim (poll_round mem a s) [
    | fault ↦ fault
    | went s' ↦ poll_rounds mem as' s'
  ]

  -- What becomes of the server in these rounds, with the result of `socket`; none where there is no
  -- socket and the thread ends.
  unfoldable pub cli_comm_ssc_init : Bool → Fd → Fd → Inbox L → List Answers → Option Round
  cli_comm_ssc_init mem none junk box rounds = none
  cli_comm_ssc_init mem (some sock_fd) junk box rounds =
      some (poll_rounds mem rounds (listen_start sock_fd junk box))
