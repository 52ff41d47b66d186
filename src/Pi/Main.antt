-- ===== src/Pi/Main.antt =====
-- pi/main.c: `main`, with the results of the calls that it tests. A thread runs if `pthread_create`
-- gave 0; the steps of the process are those of the threads that run, and the commands.
pub mod Unmade
use pi_ssc_ssd_ssa.Common.{
  ℕ, ◌^◌, ◌-◌, ◌==◌, Bool, true, false, not, Option, none, some, List, [], ◌∷◌, if◌then◌else◌,
  ◌>>=◌,
}
use pi_ssc_ssd_ssa.Public.{Entry}
use pi_ssc_ssd_ssa.Hlist.{Hlist}
use pi_ssc_ssd_ssa.MsgList.{ListHead}
use pi_ssc_ssd_ssa.Pi.Receive.{MsgQueue}
use pi_ssc_ssd_ssa.Pi.Cli.{int_lt}
use pi_ssc_ssd_ssa.Pi.Process.{HostEvent, polled, handled, called, Host, pi_step}

-- `main` returns a number, or is in its loop, with the thread that handles the messages and the one
-- that reads them, or without.
pub data Main : Type 0 where
  returned : ℕ → Main
  running : Bool → Bool → Main

-- `ERR` is -1.
abbrev err : ℕ
err = 2 ^ 32 - 1

-- Whether `rg_thread_master_create` gives something, and the results of both calls of
-- `pthread_create` and of `cli_client_ready`.
unfoldable pub main : Bool → ℕ → ℕ → ℕ → Main
main master handling server ready =
    if not master
    then returned err
    else if int_lt handling 0
    then returned handling
    else if int_lt server 0
    then returned server
    else if not (ready == 0)
    then returned ready
    else running (handling == 0) (server == 0)

-- The events that there are.
abbrev pub takes_part : Main → HostEvent → Bool
takes_part (returned n) e = false
takes_part (running handling server) (polled mem a) = server
takes_part (running handling server) (handled env create) = handling
takes_part (running handling server) (called env net junk cmd) = true

module _ (H : Hlist Entry) (L : ListHead MsgQueue) where
  unfoldable pub main_step : Main → HostEvent → Host H L → Option (Host H L)
  main_step m e h = if takes_part m e then pi_step H L e h else none

  unfoldable pub main_steps : Main → List HostEvent → Host H L → Option (Host H L)
  main_steps m [] h = some h
  main_steps m (e ∷ es) h = main_step m e h >>= main_steps m es
