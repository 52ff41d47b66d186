-- ===== src/Tests/WireTests.antt =====
-- The management process and the SSC at concrete states.
use pi_ssc_ssd_ssa.Common.{count_if, replicate, ◌≡◌, refl, true, none, some, [], ◌∷◌}
use pi_ssc_ssd_ssa.Public.Message.{Msg, message, nothing, msgid_mac_fetch}
use pi_ssc_ssd_ssa.Pi.Server.{listen_start}
use pi_ssc_ssd_ssa.Pi.Server.Places.{free_places}
use pi_ssc_ssd_ssa.Ssc.Comm.{ssc_send_msg_pi}
use pi_ssc_ssd_ssa.Ssc.Sync.{ssc_send_pi_fetch}
use pi_ssc_ssd_ssa.Ssc.Process.{reading, new_thread, step, pthread_deal_func, ssc_sync_data_pi}
use pi_ssc_ssd_ssa.System.Wire.{WireEvent, pi_polled, ssc_connected, Wire, wire_step}
use pi_ssc_ssd_ssa.System.Wire.Kinds.{IsWire}
use pi_ssc_ssd_ssa.System.Wire.Typed.{Reach, start, after, at_first, wire-goes_on}
use pi_ssc_ssd_ssa.Tests.Instances.{chains, queues, env}
use pi_ssc_ssd_ssa.Tests.SscTests.{bare, platform}

abbrev at_rest : Wire chains queues
at_rest = at_first chains queues 3 none bare

abbrev fetch : Msg
fetch = message msgid_mac_fetch nothing

abbrev connected : Wire chains queues
connected = record at_rest {
  process = record {
    ssc = record at_rest.process.ssc { to_pi = fetch ∷ [] };
    link = reading;
    threads = new_thread ∷ [];
  };
}

connected-Reach : Reach chains queues env platform at_rest connected
unfolding wire_step step pthread_deal_func ssc_send_pi_fetch ssc_send_msg_pi ssc_sync_data_pi
connected-Reach = after start (ssc_connected true true) refl refl

-- The call of the client is accepted, and its message read, in one round.
abbrev fetching : WireEvent
fetching =
    pi_polled true
      (record { n_ready = 2; pollin = λ i. true; accepted = some 4; reads = λ i. none })
      (some (1, 0))

wire-goes_on_example :
    IsWire chains queues connected
    × (s : Wire chains queues) × (wire_step chains queues env platform fetching connected ≡ some s)
    × Reach chains queues env platform at_rest s
unfolding listen_start free_places count_if replicate
wire-goes_on_example =
    wire-goes_on chains queues env platform 3 none bare connected fetching refl connected-Reach
      (refl, (fetch, refl))
