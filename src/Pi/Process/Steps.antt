-- ===== src/Pi/Process/Steps.antt =====
-- One step of the management process.
use pi_ssc_ssd_ssa.Common.{
  ℕ, suc, ◌<◌, ◌≡◌, refl, ◌⊎◌, inl, inr, Bool, true, false, ◌&&◌, not, Option, some, List, [], ◌∷◌,
  arith, ◌==◌, length, Bool-cases,
}
use pi_ssc_ssd_ssa.Public.{Entry}
use pi_ssc_ssd_ssa.Public.Message.{Msg}
use pi_ssc_ssd_ssa.Hlist.{Hlist}
use pi_ssc_ssd_ssa.MsgList.{ListHead}
use pi_ssc_ssd_ssa.Pi.Db.{Env, IsDb}
use pi_ssc_ssd_ssa.Pi.Handlers.{deal_msg}
use pi_ssc_ssd_ssa.Pi.Receive.{MsgQueue, Inbox, done, deal_loop, deal_round}
use pi_ssc_ssd_ssa.Pi.Order.{nodes, deal_loop-done}
use pi_ssc_ssd_ssa.Pi.Server.{Fd, Answers, Server, Round, max_client, clients, poll_round}
use pi_ssc_ssd_ssa.Pi.Server.Places.{free_places}
use pi_ssc_ssd_ssa.Pi.Server.Bounds.{IsServer}
use pi_ssc_ssd_ssa.Pi.Server.Overflow.{rejected, poll_round-bounds}
use pi_ssc_ssd_ssa.Pi.Cli.{Net, Command, Console}
use pi_ssc_ssd_ssa.Pi.Cli.Done.{command-Done}
use pi_ssc_ssd_ssa.Pi.Process.{
  HostEvent, polled, handled, called, Host, poll_step, deal_info_func, cli_step, pi_step,
}
use pi_ssc_ssd_ssa.Pi.Process.Queue.{can_read, Queued, deal_all-Returns, poll_round-Queued}

length-nodes : (ms : List Msg) → length (nodes ms) ≡ length ms
length-nodes [] = refl
length-nodes (m ∷ ms) = omega (arith, length-nodes ms)

-- An array with places has a first one.
pub first_place :
    (l : List Fd) → length l ≡ max_client → (f : Fd) × (rest : List Fd) × (l ≡ f ∷ rest)
first_place [] e = absurd (omega arith)
first_place (f ∷ rest) e = (f, rest, refl)

module _ (H : Hlist Entry) (L : ListHead MsgQueue) where
  -- The database, the array of descriptors and the queue are in order.
  pub record IsHost (h : Host H L) : Type 0 where
    pub db_ok : IsDb H h.pi.db
    pub server_ok : IsServer L h.server
    pub queue_ok : Queued L h.server.inbox

  -- What can come: a round of the server that reads messages that can be handled, while there is a
  -- place for a client or `accept` fails; a round of the handling thread; a command with memory for
  -- its message.
  abbrev pub CanCome : HostEvent → Host H L → Type 0
  CanCome (polled mem a) h =
      ((free_places (clients h.server.g_client) == 0 && not (rejected a)) ≡ false)
      × ((i : ℕ) → can_read (a.reads i) ≡ true)
  CanCome (handled env create) h = Unit
  CanCome (called env net junk cmd) h = net.mem ≡ true

  abbrev pub Steps : HostEvent → Host H L → Type 0
  Steps e h = (h' : Host H L) × (pi_step H L e h ≡ some h') × IsHost h'

  pub Round-cases : (r : Round L) → (r ≡ Round.fault) ⊎ ((s : Server L) × (r ≡ Round.went s))
  Round-cases Round.fault = inl refl
  Round-cases (Round.went s) = inr (s, refl)

  poll-Steps :
      (mem : Bool) (a : Answers) (h : Host H L)
      → IsHost h
      → CanCome (polled mem a) h
      → Steps (polled mem a) h
  unfolding pi_step poll_step
  poll-Steps mem a h v (room, reads) =
      let (b, safe) = poll_round-bounds L mem a h.server v.server_ok in
      let q = poll_round-Queued L mem a h.server reads v.queue_ok in
      elim (Round-cases (poll_round L mem a h.server)) [
        | inl bad ↦ let (full, in') = b.0 bad in cc (rw (full, in') at room)
        | inr (s, good) ↦ (
          record h { server = s },
          rw (good, poll_step) refl,
          record { db_ok = v.db_ok; server_ok = rw good at safe; queue_ok = rw good at q },
        )
      ]

  with_inbox : (s : Server L) (box : Inbox L) → IsServer L s → IsServer L (record s { inbox = box })
  with_inbox s box v = record { size = v.size; last = v.last; above = v.above }

  deal_round_idle :
      {S : Type 0} (deal : Msg → S → Option S) (fuel : ℕ) (q : L.Head) (pending : Bool) (s : S)
      → pending ≡ false
      → let box : Inbox L = record { queue = q; pending = pending } in
        deal_round L deal fuel box s ≡ done box s
  unfolding deal_round
  deal_round_idle deal fuel q false s idle = refl
  deal_round_idle deal fuel q true s idle = cc

  deal_round_run :
      {S : Type 0} (deal : Msg → S → Option S) (fuel : ℕ) (box : Inbox L) (s : S) (q : L.Head)
      (s' : S)
      → box.pending ≡ true
      → deal_loop L deal fuel box.queue s ≡ done q s'
      → deal_round L deal fuel box s ≡ done (record { queue = q; pending = false }) s'
  unfolding deal_round
  deal_round_run deal fuel box s q s' pending run = rw (pending, run, deal_round) refl

  deal-Steps : (env : Env) (create : Bool) (h : Host H L) → IsHost h → Steps (handled env create) h
  unfolding pi_step deal_info_func
  deal-Steps env create h v =
      let box = h.server.inbox in
      let q = v.queue_ok in
      elim (Bool-cases box.pending) [
        | inr idle ↦ (
          record h { server = record h.server { inbox = box } },
          rw
              (
                deal_round_idle (deal_msg H env create) _ box.queue box.pending h.pi idle,
                deal_info_func,
              )
              refl,
          record { db_ok = v.db_ok; server_ok = with_inbox h.server box v.server_ok; queue_ok = q },
        )
        | inl pending ↦
            let (pi', all, v') = deal_all-Returns H env create q.ms h.pi q.can v.db_ok in
            let enough : length q.ms < suc (length (L.items box.queue)) =
              rw q.there (omega (arith, length-nodes q.ms)) in
            let (head, run, bare) =
              deal_loop-done L (deal_msg H env create) _ box.queue q.ms h.pi pi' q.there enough
                all in
            let box' : Inbox L = record { queue = head; pending = false } in
            (
              record h { pi = pi'; server = record h.server { inbox = box' } },
              rw
                  (
                    deal_round_run (deal_msg H env create) _ box h.pi head pi' pending run,
                    deal_info_func,
                  )
                  refl,
              record {
                db_ok = v';
                server_ok = with_inbox h.server box' v.server_ok;
                queue_ok = record { ms = []; there = bare; can = refl };
              },
            )
      ]

  cli-Steps :
      (env : Env) (net : Net) (junk : ℕ) (cmd : Command) (h : Host H L)
      → IsHost h
      → net.mem ≡ true
      → Steps (called env net junk cmd) h
  unfolding pi_step cli_step
  cli-Steps env net junk cmd h v mem =
      let (listening, l, g) = first_place h.server.g_client v.server_ok.size in
      let console : Console H = record {
        db = h.pi.db;
        g_client = h.server.g_client;
        sent = h.sent;
        said = h.said;
      } in
      let (c, run, d) = command-Done H env net junk listening l cmd console mem g v.db_ok in
      (
        record h { pi = record h.pi { db = c.db }; sent = c.sent; said = c.said },
        rw run refl,
        record { db_ok = d.valid; server_ok = v.server_ok; queue_ok = v.queue_ok },
      )

  -- An event that can come is dealt with, and leaves the process in order.
  pub step-IsHost : (e : HostEvent) (h : Host H L) → IsHost h → CanCome e h → Steps e h
  unfolding pi_step
  step-IsHost (polled mem a) h v ok = poll-Steps mem a h v ok
  step-IsHost (handled env create) h v ok = deal-Steps env create h v
  step-IsHost (called env net junk cmd) h v ok = cli-Steps env net junk cmd h v ok
