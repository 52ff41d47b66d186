-- ===== src/Pi/Process/Writes.antt =====
-- What a step of the management process adds to the messages that it has written.
use pi_ssc_ssd_ssa.Common.{ℕ, suc, ◌≡◌, refl, inl, inr, Bool, true, some, List, length, ◌++◌, none}
use pi_ssc_ssd_ssa.Public.{Entry}
use pi_ssc_ssd_ssa.Hlist.{Hlist}
use pi_ssc_ssd_ssa.MsgList.{ListHead}
use pi_ssc_ssd_ssa.Pi.Db.{Env}
use pi_ssc_ssd_ssa.Pi.Handlers.{deal_msg}
use pi_ssc_ssd_ssa.Pi.Receive.{MsgQueue, done, fault, out_of_fuel, deal_round}
use pi_ssc_ssd_ssa.Pi.Server.{Answers, send_loop, poll_round}
use pi_ssc_ssd_ssa.Pi.Cli.{Net, Command, Console}
use pi_ssc_ssd_ssa.Pi.Cli.Done.{sends, order, command-Done}
use pi_ssc_ssd_ssa.Pi.Process.{Host, poll_step, deal_info_func, cli_step}
use pi_ssc_ssd_ssa.Pi.Process.Steps.{IsHost, Round-cases, first_place}

module _ (H : Hlist Entry) (L : ListHead MsgQueue) where
  -- The rounds of the server and of the handling thread write nothing.
  pub poll_step-sent :
      (mem : Bool) (a : Answers) (h h' : Host H L)
      → poll_step H L mem a h ≡ some h'
      → h'.sent ≡ h.sent
  unfolding poll_step
  poll_step-sent mem a h h' run = elim (Round-cases H L (poll_round L mem a h.server)) [
    | inl bad ↦ cc (rw (bad, poll_step) at run)
    | inr (s, good) ↦
        let same : some (record h { server = s }) ≡ some h' = rw (good, poll_step) at run in
        let eq : record h { server = s } ≡ h' = cc in rw (← eq) refl
  ]

  pub deal_info_func-sent :
      (env : Env) (create : Bool) (h h' : Host H L)
      → deal_info_func H L env create h ≡ some h'
      → h'.sent ≡ h.sent
  unfolding deal_info_func
  deal_info_func-sent env create h h' run =
      let box = h.server.inbox in
      let fuel = suc (length (L.items box.queue)) in
      elim (deal_round L (deal_msg H env create) fuel box h.pi)
          as (λ d.
            (elim d [
              | done box' pi' ↦
                  some (record h { pi = pi'; server = record h.server { inbox = box' } })
              | fault ↦ none
              | out_of_fuel ↦ none
            ])
              ≡ some h'
            → h'.sent ≡ h.sent) [
              | done box' pi' ↦ λ e.
                  let next = record h { pi = pi'; server = record h.server { inbox = box' } } in
                  let same : some next ≡ some h' = e in let eq : next ≡ h' = cc in rw (← eq) refl
              | fault ↦ λ e. cc
              | out_of_fuel ↦ λ e. cc
            ]
        run

  -- A command writes the message that it stands for.
  pub cli_step-sent :
      (env : Env) (net : Net) (junk : ℕ) (cmd : Command) (h h' : Host H L)
      → IsHost H L h
      → net.mem ≡ true
      → cli_step H L env net junk cmd h ≡ some h'
      → (fds : List ℕ) × (h'.sent ≡ h.sent ++ sends H (order junk cmd) fds)
  unfolding cli_step
  cli_step-sent env net junk cmd h h' v mem run =
      let (listening, l, g) = first_place h.server.g_client v.server_ok.size in
      let console : Console H = record {
        db = h.pi.db;
        g_client = h.server.g_client;
        sent = h.sent;
        said = h.said;
      } in
      let (c, gone, d) = command-Done H env net junk listening l cmd console mem g v.db_ok in
      let next = record h { pi = record h.pi { db = c.db }; sent = c.sent; said = c.said } in
      let same : some next ≡ some h' = rw gone at run in
      let eq : next ≡ h' = cc in (send_loop net.wrote listening l, rw (← eq) d.sent)
