-- ===== src/System/Wire.antt =====
-- The management process and an SSC as one system. What each writes stays on the wire until the other
-- reads it: in order, with messages that are lost left out. The threads that send the configuration
-- (`pthread_ds_fun`) run beside the other threads of the management process.
pub mod Sent
pub mod Kinds
pub mod HostSteps
pub mod Steps
pub mod Typed
use pi_ssc_ssd_ssa.Common.{
  ℕ, ◌+◌, ◌==◌, Bool, Option, none, some, List, [], ◌∷◌, ◌++◌, map, length, ltb, get_or, set,
  get_elem?, if◌then◌else◌, ◌>>=◌,
}
use pi_ssc_ssd_ssa.Public.{Entry}
use pi_ssc_ssd_ssa.Public.Message.{Msg, mac_entry}
use pi_ssc_ssd_ssa.Hlist.{Hlist}
use pi_ssc_ssd_ssa.MsgList.{ListHead}
use pi_ssc_ssd_ssa.Pi.Db.{Env}
use pi_ssc_ssd_ssa.Pi.Handlers.{pthread_ds_fun}
use pi_ssc_ssd_ssa.Pi.Receive.{MsgQueue}
use pi_ssc_ssd_ssa.Pi.Server.{Answers, pi_send_msg_ssc}
use pi_ssc_ssd_ssa.Pi.Cli.{Net, Command}
use pi_ssc_ssd_ssa.Pi.Process.{Host, poll_step, deal_info_func, cli_step}
use pi_ssc_ssd_ssa.Ssc.Comm.{Platform}
use pi_ssc_ssd_ssa.Ssc.Process.{Process, connect, read, read_failed, notified, sync, looked, step}

-- A round of the server, in which the place that is given reads the message that stands the given
-- number of messages on, or none reads; a round of the handling thread; a command; a thread of
-- `pthread_ds_fun` that begins, with the place of the array that it does not set, or sends; and the
-- events of the SSC, whose notices hold the entry that a line card sends.
pub data WireEvent : Type 0 where
  pi_polled : Bool → Answers → Option (ℕ × ℕ) → WireEvent
  pi_handled : Env → Bool → WireEvent
  pi_called : Env → Net → ℕ → Command → WireEvent
  ds_begun : ℕ → WireEvent
  ds_sent : Net → ℕ → WireEvent
  ssc_connected : Bool → Bool → WireEvent
  ssc_read : ℕ → WireEvent
  ssc_read_failed : Bool → WireEvent
  ssc_notified : Entry → WireEvent
  ssc_synced : ℕ → WireEvent
  ssc_looked : WireEvent

module _ (H : Hlist Entry) (L : ListHead MsgQueue) where
  -- Both processes, how far each has read what the other wrote, and what each thread of
  -- `pthread_ds_fun` has still to send, the newest thread first.
  pub record Wire : Type 0 where
    pub host : Host H L
    pub process : Process H
    pub read_by_pi : ℕ
    pub read_by_ssc : ℕ
    pub ds : List (List Msg)

  -- What the management process wrote.
  abbrev pub to_ssc : Wire → List Msg
  to_ssc s = map (λ (m : Msg × List ℕ). m.0) s.host.sent

  abbrev pub to_pi : Wire → List Msg
  to_pi s = s.process.ssc.to_pi

  -- What the places read, if the one given reads the message.
  abbrev pub only : ℕ → Msg → ℕ → Option Msg
  only place m i = if i == place then some m else none

  abbrev pub silent : ℕ → Option Msg
  silent i = none

  unfoldable pub pi_polled_step : Bool → Answers → Option (ℕ × ℕ) → Wire → Option Wire
  pi_polled_step mem a none s = do
    h ← poll_step H L mem (record a { reads = silent }) s.host
    some (record s { host = h })
  pi_polled_step mem a (some (place, skip)) s = do
    m ← get_elem? (to_pi s) (s.read_by_pi + skip)
    h ← poll_step H L mem (record a { reads = only place m }) s.host
    some (record s { host = h; read_by_pi = s.read_by_pi + skip + 1 })

  -- No more threads begin than `pi_to_ssc_conf` has made.
  unfoldable pub ds_begun_step : ℕ → Wire → Option Wire
  ds_begun_step junk s =
      if ltb (length s.ds) s.host.pi.threads
      then some (record s { ds = pthread_ds_fun H junk s.host.pi.db ∷ s.ds })
      else none

  unfoldable pub ds_sent_step : Net → ℕ → Wire → Option Wire
  ds_sent_step net k s = elim (get_or s.ds k []) [
    | [] ↦ none
    | m ∷ rest ↦ (do
      sent ← pi_send_msg_ssc net.mem net.wrote m s.host.server.g_client
      some (record s {
        host = record s.host { sent = s.host.sent ++ (sent ∷ []) };
        ds = set s.ds k rest;
      }))
  ]

  module _ (env : Env) (platform : Platform) where
    unfoldable pub ssc_read_step : ℕ → Wire → Option Wire
    ssc_read_step skip s = do
      m ← get_elem? (to_ssc s) (s.read_by_ssc + skip)
      p ← step H env platform (read m) s.process
      some (record s { process = p; read_by_ssc = s.read_by_ssc + skip + 1 })

    unfoldable pub wire_step : WireEvent → Wire → Option Wire
    wire_step (pi_polled mem a from) s = pi_polled_step mem a from s
    wire_step (pi_handled e create) s = do
      h ← deal_info_func H L e create s.host
      some (record s { host = h })
    wire_step (pi_called e net junk cmd) s = do
      h ← cli_step H L e net junk cmd s.host
      some (record s { host = h })
    wire_step (ds_begun junk) s = ds_begun_step junk s
    wire_step (ds_sent net k) s = ds_sent_step net k s
    wire_step (ssc_connected ok create) s = do
      p ← step H env platform (connect ok create) s.process
      some (record s { process = p })
    wire_step (ssc_read skip) s = ssc_read_step skip s
    wire_step (ssc_read_failed opened) s = do
      p ← step H env platform (read_failed opened) s.process
      some (record s { process = p })
    wire_step (ssc_notified e) s = do
      p ← step H env platform (notified (mac_entry e)) s.process
      some (record s { process = p })
    wire_step (ssc_synced k) s = do
      p ← step H env platform (sync k) s.process
      some (record s { process = p })
    wire_step ssc_looked s = do
      p ← step H env platform looked s.process
      some (record s { process = p })
