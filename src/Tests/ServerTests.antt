-- ===== src/Tests/ServerTests.antt =====
-- The server at concrete arrays.
use pi_ssc_ssd_ssa.Common.{
  ℕ, ◌≡◌, ◌↔◌, refl, true, false, none, some, List, [], ◌∷◌, arith, ◌==◌, count_if, if◌then◌else◌,
}
use pi_ssc_ssd_ssa.Public.Message.{Msg, message, nothing, msgid_end}
use pi_ssc_ssd_ssa.Pi.Server.{
  Answers, Server, fault, clients, poll_round, cli_comm_ssc_init, listen_start, pi_send_msg_ssc,
}
use pi_ssc_ssd_ssa.Pi.Server.Places.{free_places}
use pi_ssc_ssd_ssa.Pi.Server.Bounds.{IsServer, Safe}
use pi_ssc_ssd_ssa.Pi.Server.Overflow.{rejected, poll_round-bounds}
use pi_ssc_ssd_ssa.Pi.Server.Calm.{IsCalm, cli_comm_ssc_init-fault, listen_start-IsServer}
use pi_ssc_ssd_ssa.Pi.Server.Clients.{grouped, holds, up_to_failure, pi_send_msg_ssc-once}
use pi_ssc_ssd_ssa.Tests.Instances.{queues}

abbrev the_end : Msg
the_end = message msgid_end nothing

-- Data of one client, and nobody who calls.
abbrev data_comes : Answers
data_comes = record {
  n_ready = 1;
  pollin = λ i. i == 1;
  accepted = none;
  reads = λ i. some the_end;
}

abbrev first : Server queues
first = listen_start queues 3 (some 7) (record { queue = []; pending = false })

first-IsServer : IsServer queues first
first-IsServer =
    (listen_start-IsServer queues 3 (some 7) (record { queue = []; pending = false })).0

data_comes-IsCalm : IsCalm data_comes
data_comes-IsCalm = record { welcome = refl; stays = λ i. refl }

poll_round-bounds_example :
    ((poll_round queues true data_comes first ≡ fault)
      ↔ ((free_places (clients first.g_client) ≡ 0) × (rejected data_comes ≡ false)))
    × Safe queues (poll_round queues true data_comes first)
poll_round-bounds_example = poll_round-bounds queues true data_comes first first-IsServer

-- A client calls.
abbrev call_comes : Answers
call_comes = record data_comes { pollin = λ i. i == 0; accepted = some 7 }

cli_comm_ssc_init-fault_example :
    cli_comm_ssc_init queues true
      (some 3)
      none
      (record { queue = []; pending = false })
      (call_comes ∷ data_comes ∷ data_comes ∷ data_comes ∷ data_comes ∷ [])
    ≡ some fault
cli_comm_ssc_init-fault_example =
    let c = data_comes-IsCalm in
    cli_comm_ssc_init-fault queues true 3 7 none (record { queue = []; pending = false }) call_comes
      (data_comes ∷ data_comes ∷ data_comes ∷ data_comes ∷ []) refl refl
      (record { welcome = refl; stays = λ i. refl }, (c, (c, (c, (c, tt))))) (omega arith)

pi_send_msg_ssc-once_example :
    (all : List ℕ) × (pi_send_msg_ssc true
        (λ f. f == 7)
        the_end
        (some 3 ∷ some 7 ∷ some 7 ∷ some 8 ∷ none ∷ [])
      ≡ some (the_end, up_to_failure (λ f. f == 7) all))
    × ((f : ℕ)
        → count_if (λ g. g == f) all
          ≡ (if f == 3 then 0 else if holds f (some 7 ∷ some 7 ∷ some 8 ∷ none ∷ []) then 1 else 0))
unfolding grouped holds
pi_send_msg_ssc-once_example =
    pi_send_msg_ssc-once (λ f. f == 7) the_end 3 (some 7 ∷ some 7 ∷ some 8 ∷ none ∷ []) refl
