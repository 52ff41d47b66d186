-- ===== src/System/Wire/HostSteps.antt =====
-- What can come to the management process and the SSC, and a step of the management process.
use pi_ssc_ssd_ssa.Common.{
  ℕ, ◌+◌, ◌≡◌, refl, Bool, true, false, not, ◌&&◌, ◌==◌, Option, none, some, List, [], ◌∷◌, ◌++◌,
  map, arith, if_both, length, ltb, get_or, set, get_elem?, every, every-append, every-get_elem?,
  every-get_or, every-set,
}
use mathlib.Core.List.{map-append}
use pi_ssc_ssd_ssa.Public.{Entry}
use pi_ssc_ssd_ssa.Public.Message.{Msg}
use pi_ssc_ssd_ssa.Hlist.{Hlist}
use pi_ssc_ssd_ssa.MsgList.{ListHead}
use pi_ssc_ssd_ssa.Pi.Db.{Env}
use pi_ssc_ssd_ssa.Pi.Handlers.{pthread_ds_fun}
use pi_ssc_ssd_ssa.Pi.Receive.{MsgQueue}
use pi_ssc_ssd_ssa.Pi.Server.{Fd, Answers, clients, send_loop, pi_send_msg_ssc}
use pi_ssc_ssd_ssa.Pi.Server.Places.{free_places}
use pi_ssc_ssd_ssa.Pi.Server.Overflow.{rejected}
use pi_ssc_ssd_ssa.Pi.Cli.{Net, Command}
use pi_ssc_ssd_ssa.Pi.Process.{polled, handled, called, Host, pi_step}
use pi_ssc_ssd_ssa.Pi.Process.Queue.{can_handle, can_read}
use pi_ssc_ssd_ssa.Pi.Process.Steps.{IsHost, step-IsHost, first_place}
use pi_ssc_ssd_ssa.Pi.Process.Writes.{poll_step-sent, deal_info_func-sent, cli_step-sent}
use pi_ssc_ssd_ssa.Ssc.Comm.{Platform}
use pi_ssc_ssd_ssa.Ssc.Process.{reading, connect, read_failed, sync, looked}
use pi_ssc_ssd_ssa.Ssc.Process.Alive.{can_come}
use pi_ssc_ssd_ssa.System.Wire.{
  WireEvent, pi_polled, pi_handled, pi_called, ds_begun, ds_sent, ssc_connected, ssc_read,
  ssc_read_failed, ssc_notified, ssc_synced, ssc_looked, Wire, to_ssc, to_pi, only, silent,
  pi_polled_step, ds_begun_step, ds_sent_step, wire_step,
}
use pi_ssc_ssd_ssa.System.Wire.Kinds.{can_ssc, order-can_ssc, ds-can_ssc, IsWire}

module _ (H : Hlist Entry) (L : ListHead MsgQueue) where
  -- What a place reads, if the message it reads can be handled.
  only-can_read :
      (place : ℕ) (m : Msg) → can_handle m ≡ true → (i : ℕ) → can_read (only H L place m i) ≡ true
  only-can_read place m can i =
      if_both (λ (o : Option Msg). can_read o ≡ true) (i == place) (some m) none can refl

  -- A thread that has a message left.
  abbrev Sends : ℕ → Wire H L → Type 0
  Sends k s = (m : Msg) × (rest : List Msg) × (get_or s.ds k [] ≡ m ∷ rest)

  module _ (env : Env) (platform : Platform) where
    -- What can come: a round of the server while there is a place for a client or `accept` fails, in
    -- which a place reads a message that is on the wire, or none does; a round of the handling thread;
    -- a command with memory for its message; a thread of `pthread_ds_fun` that was made, or has a
    -- message left and memory for it; and what can come to the SSC, which reads a message that is on
    -- the wire. Nothing is said about what is in the messages.
    abbrev pub CanWire : WireEvent → Wire H L → Type 0
    CanWire (pi_polled mem a from) s =
        ((free_places (clients s.host.server.g_client) == 0 && not (rejected a)) ≡ false)
        × (elim from [
          | none ↦ Unit
          | some (place, skip) ↦
              (m : Msg) × (get_elem? (to_pi H L s) (s.read_by_pi + skip) ≡ some m)
        ])
    CanWire (pi_handled e create) s = Unit
    CanWire (pi_called e net junk cmd) s = net.mem ≡ true
    CanWire (ds_begun junk) s = ltb (length s.ds) s.host.pi.threads ≡ true
    CanWire (ds_sent net k) s = (net.mem ≡ true) × Sends k s
    CanWire (ssc_connected ok create) s =
        can_come H env platform (connect ok create) s.process ≡ true
    CanWire (ssc_read skip) s =
        (s.process.link ≡ reading)
        × (m : Msg) × (get_elem? (to_ssc H L s) (s.read_by_ssc + skip) ≡ some m)
    CanWire (ssc_read_failed opened) s =
        can_come H env platform (read_failed opened) s.process ≡ true
    CanWire (ssc_notified e) s = Unit
    CanWire (ssc_synced k) s = can_come H env platform (sync k) s.process ≡ true
    CanWire ssc_looked s = can_come H env platform looked s.process ≡ true

    abbrev pub Steps : WireEvent → Wire H L → Type 0
    Steps e s = (s' : Wire H L) × (wire_step H L env platform e s ≡ some s') × IsWire H L s'

    -- The management process goes on, and writes nothing.
    silent_step :
        (s : Wire H L) (h : Host H L) (n : ℕ)
        → IsWire H L s
        → IsHost H L h
        → h.sent ≡ s.host.sent
        → IsWire H L (record s { host = h; read_by_pi = n })
    silent_step s h n v w e = record {
      host_ok = w;
      db_ok = v.db_ok;
      pi_can = v.pi_can;
      ssc_can = rw e v.ssc_can;
      ds_can = v.ds_can;
    }

    pub polled-Steps :
        (mem : Bool) (a : Answers) (from : Option (ℕ × ℕ)) (s : Wire H L)
        → IsWire H L s
        → CanWire (pi_polled mem a from) s
        → Steps (pi_polled mem a from) s
    unfolding wire_step pi_polled_step pi_step
    polled-Steps mem a none s v (room, from) =
        let a' = record a { reads = silent H L } in
        let (h, run, w) = step-IsHost H L (polled mem a') s.host v.host_ok (room, λ i. refl) in
        (
          record s { host = h },
          simp run,
          silent_step s h s.read_by_pi v w (poll_step-sent H L mem a' s.host h run),
        )
    polled-Steps mem a (some (place, skip)) s v (room, waiting) =
        let (m, there) = waiting in
        let a' = record a { reads = only H L place m } in
        let can = every-get_elem? can_handle (to_pi H L s) _ m v.pi_can there in
        let (h, run, w) =
          step-IsHost H L (polled mem a') s.host v.host_ok (room, only-can_read place m can) in
        (
          record s { host = h; read_by_pi = s.read_by_pi + skip + 1 },
          simp (there, run),
          silent_step s h _ v w (poll_step-sent H L mem a' s.host h run),
        )

    pub handled-Steps :
        (e : Env) (create : Bool) (s : Wire H L) → IsWire H L s → Steps (pi_handled e create) s
    unfolding wire_step pi_step
    handled-Steps e create s v =
        let (h, run, w) = step-IsHost H L (handled e create) s.host v.host_ok tt in
        (
          record s { host = h },
          simp run,
          silent_step s h s.read_by_pi v w (deal_info_func-sent H L e create s.host h run),
        )

    -- The management process writes messages that the SSC can handle.
    written :
        (s : Wire H L) (h : Host H L) (more : List (Msg × List ℕ)) (ds : List (List Msg))
        → IsWire H L s
        → IsHost H L h
        → h.sent ≡ s.host.sent ++ more
        → every can_ssc (map (λ (m : Msg × List ℕ). m.0) more) ≡ true
        → every (every can_ssc) ds ≡ true
        → IsWire H L (record s { host = h; ds = ds })
    written s h more ds v w e can d = record {
      host_ok = w;
      db_ok = v.db_ok;
      pi_can = v.pi_can;
      ssc_can =
          rw (e, map-append (λ (m : Msg × List ℕ). m.0) s.host.sent more)
            (every-append can_ssc _ _ v.ssc_can can);
      ds_can = d;
    }

    pub called-Steps :
        (e : Env) (net : Net) (junk : ℕ) (cmd : Command) (s : Wire H L)
        → IsWire H L s
        → net.mem ≡ true
        → Steps (pi_called e net junk cmd) s
    unfolding wire_step pi_step
    called-Steps e net junk cmd s v mem =
        let (h, run, w) = step-IsHost H L (called e net junk cmd) s.host v.host_ok mem in
        let (fds, sent) = cli_step-sent H L e net junk cmd s.host h v.host_ok mem run in
        (
          record s { host = h },
          simp run,
          written s h _ s.ds v w sent (order-can_ssc H L junk cmd fds) v.ds_can,
        )

    pub ds_begun-Steps :
        (junk : ℕ) (s : Wire H L)
        → IsWire H L s
        → ltb (length s.ds) s.host.pi.threads ≡ true
        → Steps (ds_begun junk) s
    unfolding wire_step ds_begun_step every
    ds_begun-Steps junk s v made =
        let ds = pthread_ds_fun H junk s.host.pi.db ∷ s.ds in
        (
          record s { ds = ds },
          rw (made, ds_begun_step) refl,
          record {
            host_ok = v.host_ok;
            db_ok = v.db_ok;
            pi_can = v.pi_can;
            ssc_can = v.ssc_can;
            ds_can = ground (arith, ds-can_ssc H L junk s.host, v.ds_can);
          },
        )

    ds_sent-run :
        (net : Net) (k : ℕ) (s : Wire H L) (m : Msg) (rest : List Msg) (listening : Fd)
        (l : List Fd)
        → net.mem ≡ true
        → get_or s.ds k [] ≡ m ∷ rest
        → s.host.server.g_client ≡ listening ∷ l
        → wire_step H L env platform (ds_sent net k) s
          ≡ some (record s {
            host = record s.host {
              sent = s.host.sent ++ ((m, send_loop net.wrote listening l) ∷ []);
            };
            ds = set s.ds k rest;
          })
    unfolding wire_step ds_sent_step pi_send_msg_ssc
    ds_sent-run net k s m rest listening l mem next g = rw (next, ds_sent_step, g, mem) refl

    pub ds_sent-Steps :
        (net : Net) (k : ℕ) (s : Wire H L)
        → IsWire H L s
        → CanWire (ds_sent net k) s
        → Steps (ds_sent net k) s
    unfolding every
    ds_sent-Steps net k s v (mem, left) =
        let (m, rest, next) = left in
        let (listening, l, g) = first_place s.host.server.g_client v.host_ok.server_ok.size in
        let sent : Msg × List ℕ = (m, send_loop net.wrote listening l) in
        let h = record s.host { sent = s.host.sent ++ (sent ∷ []) } in
        let there : every can_ssc (m ∷ rest) ≡ true =
          rw next at (every-get_or (every can_ssc) s.ds k [] v.ds_can refl) in
        let w : IsHost H L h = record {
          db_ok = v.host_ok.db_ok;
          server_ok = v.host_ok.server_ok;
          queue_ok = v.host_ok.queue_ok;
        } in
        (
          record s { host = h; ds = set s.ds k rest },
          ds_sent-run net k s m rest listening l mem next g,
          written s h (sent ∷ []) (set s.ds k rest) v w refl (ground (arith, there))
              (every-set (every can_ssc) s.ds k rest v.ds_can (ground (arith, there))),
        )
