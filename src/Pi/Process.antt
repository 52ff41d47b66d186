-- ===== src/Pi/Process.antt =====
-- The threads of the management process together, as pi/main.c starts them: the server that reads
-- (`cli_comm_ssc_init`), the thread that handles what was read (`deal_info_func`), and the commands. A
-- round of the server, a round of the handling thread, which holds the mutex of the queue all through,
-- and a command are one step each.
pub mod Queue
pub mod Steps
pub mod Writes
pub mod Alive
use pi_ssc_ssd_ssa.Common.{ℕ, suc, ◌+◌, Bool, Option, none, some, List, length, ◌>>=◌}
use pi_ssc_ssd_ssa.Public.{Entry}
use pi_ssc_ssd_ssa.Public.Message.{Msg}
use pi_ssc_ssd_ssa.Hlist.{Hlist}
use pi_ssc_ssd_ssa.MsgList.{ListHead}
use pi_ssc_ssd_ssa.Pi.Db.{Env, Db}
use pi_ssc_ssd_ssa.Pi.Handlers.{Pi, deal_msg}
use pi_ssc_ssd_ssa.Pi.Receive.{MsgQueue, done, fault, out_of_fuel, deal_round}
use pi_ssc_ssd_ssa.Pi.Server.{Server, Answers, Round, poll_round}
use pi_ssc_ssd_ssa.Pi.Cli.{Said, Net, Command, Console, command}

-- A round of the server, with memory or not for what it reads; a round of the handling thread, with
-- the result of `pthread_create`; and a command, with the unset variable of the one that has one.
pub data HostEvent : Type 0 where
  polled : Bool → Answers → HostEvent
  handled : Env → Bool → HostEvent
  called : Env → Net → ℕ → Command → HostEvent

module _ (H : Hlist Entry) (L : ListHead MsgQueue) where
  pub record Host : Type 0 where
    pub pi : Pi H
    pub server : Server L
    pub sent : List (Msg × List ℕ)
    pub said : List Said

  -- None for an access past the array.
  unfoldable pub poll_step : Bool → Answers → Host → Option Host
  poll_step mem a h = elim (poll_round L mem a h.server) [
    | Round.went s ↦ some (record h { server = s })
    | Round.fault ↦ none
  ]

  -- The loop gets as much fuel as there are messages, and one more.
  unfoldable pub deal_info_func : Env → Bool → Host → Option Host
  deal_info_func env create h =
      let box = h.server.inbox in
      elim (deal_round L (deal_msg H env create) (suc (length (L.items box.queue))) box h.pi) [
        | done box' pi' ↦ some (record h { pi = pi'; server = record h.server { inbox = box' } })
        | fault ↦ none
        | out_of_fuel ↦ none
      ]

  unfoldable pub cli_step : Env → Net → ℕ → Command → Host → Option Host
  cli_step env net junk cmd h = do
    c ←
        command H env net junk cmd
          (record { db = h.pi.db; g_client = h.server.g_client; sent = h.sent; said = h.said })
    some (record h { pi = record h.pi { db = c.db }; sent = c.sent; said = c.said })

  unfoldable pub pi_step : HostEvent → Host → Option Host
  pi_step (polled mem a) h = poll_step mem a h
  pi_step (handled env create) h = deal_info_func env create h
  pi_step (called env net junk cmd) h = cli_step env net junk cmd h
