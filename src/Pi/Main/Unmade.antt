-- ===== src/Pi/Main/Unmade.antt =====
-- The threads that `main` could not make.
use pi_ssc_ssd_ssa.Common.{
  ℕ, ◌<◌, ◌^◌, ◌≡◌, ◌≢◌, refl, ◌∙◌, inl, inr, true, false, some, List, [], ◌∷◌, arith, ◌==◌, ==_iff,
  Option-cases, Bool,
}
use pi_ssc_ssd_ssa.Public.{Entry}
use pi_ssc_ssd_ssa.Hlist.{Hlist}
use pi_ssc_ssd_ssa.MsgList.{ListHead}
use pi_ssc_ssd_ssa.Pi.Db.{Env}
use pi_ssc_ssd_ssa.Pi.Receive.{MsgQueue}
use pi_ssc_ssd_ssa.Pi.Server.{Fd, Answers, poll_round}
use pi_ssc_ssd_ssa.Pi.Cli.{Net, Command, Console, command, int_lt}
use pi_ssc_ssd_ssa.Pi.Process.{
  HostEvent, polled, handled, called, Host, poll_step, cli_step, pi_step,
}
use pi_ssc_ssd_ssa.Pi.Process.Steps.{Round-cases}
use pi_ssc_ssd_ssa.Pi.Process.Alive.{at_start}
use pi_ssc_ssd_ssa.Pi.Main.{running, main, main_step, main_steps}

-- A number that is not negative.
int_lt-zero : (n : ℕ) → n < 2 ^ 31 → int_lt n 0 ≡ false
unfolding int_lt
int_lt-zero n small = ground arith

main-running :
    (handling server : ℕ)
    → handling < 2 ^ 31
    → server < 2 ^ 31
    → main true handling server 0 ≡ running (handling == 0) (server == 0)
unfolding main
main-running handling server small small' =
    rw (int_lt-zero handling small, int_lt-zero server small', main) refl

module _ (H : Hlist Entry) (L : ListHead MsgQueue) where
  poll_step-threads :
      (mem : Bool) (a : Answers) (h h' : Host H L)
      → poll_step H L mem a h ≡ some h'
      → h'.pi.threads ≡ h.pi.threads
  unfolding poll_step
  poll_step-threads mem a h h' run = elim (Round-cases H L (poll_round L mem a h.server)) [
    | inl bad ↦ cc (rw (bad, poll_step) at run)
    | inr (s, good) ↦
        let same : some (record h { server = s }) ≡ some h' = rw (good, poll_step) at run in
        let eq : record h { server = s } ≡ h' = cc in rw (← eq) refl
  ]

  cli_step-threads :
      (env : Env) (net : Net) (junk : ℕ) (cmd : Command) (h h' : Host H L)
      → cli_step H L env net junk cmd h ≡ some h'
      → h'.pi.threads ≡ h.pi.threads
  unfolding cli_step
  cli_step-threads env net junk cmd h h' run =
      let console : Console H = record {
        db = h.pi.db;
        g_client = h.server.g_client;
        sent = h.sent;
        said = h.said;
      } in
      elim (Option-cases (command H env net junk cmd console)) [
        | inl exits ↦ cc (rw exits at run)
        | inr (c, gone) ↦
            let next : Host H L = record h {
              pi = record h.pi { db = c.db };
              sent = c.sent;
              said = c.said;
            } in
            let same : some next ≡ some h' = rw gone at run in
            let eq : next ≡ h' = cc in rw (← eq) refl
      ]

  main_step-threads :
      (server : Bool) (e : HostEvent) (h h' : Host H L)
      → main_step H L (running false server) e h ≡ some h'
      → h'.pi.threads ≡ h.pi.threads
  unfolding main_step pi_step
  main_step-threads true (polled mem a) h h' run = poll_step-threads mem a h h' run
  main_step-threads false (polled mem a) h h' run = cc
  main_step-threads server (handled env create) h h' run = cc
  main_step-threads server (called env net junk cmd) h h' run =
      cli_step-threads env net junk cmd h h' run

  main_steps-threads :
      (server : Bool) (es : List HostEvent) (h h' : Host H L)
      → main_steps H L (running false server) es h ≡ some h'
      → h'.pi.threads ≡ h.pi.threads
  unfolding main_steps
  main_steps-threads server [] h h' run = let eq : h ≡ h' = cc in rw (← eq) refl
  main_steps-threads server (e ∷ es) h h' run =
      elim (Option-cases (main_step H L (running false server) e h)) [
        | inl stuck ↦ cc (rw stuck at run)
        | inr (h1, first) ↦
            main_steps-threads server es h1 h' (rw first at run)
            ∙ main_step-threads server e h h1 first
      ]

  -- `pthread_create` gives 0, or an error number, which is positive. Then no failure of it makes
  -- `main` return; and if the thread that handles the messages could not be made, then in whatever
  -- order commands come and messages are read, none is handled, so that no configuration is ever sent
  -- to an SSC that asks for it.
  pub main-unmade :
      (handling server sock_fd : ℕ) (junk : Fd)
      → handling < 2 ^ 31
      → server < 2 ^ 31
      → (main true handling server 0 ≡ running (handling == 0) (server == 0))
        × (handling ≢ 0
            → (es : List HostEvent) (h : Host H L)
            → main_steps H L (main true handling server 0) es (at_start H L sock_fd junk) ≡ some h
            → h.pi.threads ≡ 0)
  main-unmade handling server sock_fd junk small small' =
      let runs = main-running handling server small small' in
      (
        runs,
        λ failed es h path.
            let off : (handling == 0) ≡ false = ground (arith, ==_iff handling 0) in
            main_steps-threads (server == 0) es _ h (rw (runs, off) at path),
      )
