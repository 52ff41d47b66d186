-- ===== src/Ssc/Learn.antt =====
-- The argument of the command that switches the learning of addresses, here and in the SSC.
use pi_ssc_ssd_ssa.Common.{
  ℕ, zero, suc, ◌+◌, ◌≡◌, refl, inl, inr, true, false, none, some, List, [], ◌∷◌, ◌++◌, arith, leb,
  ltb, ◌==◌, length, get_or, get_or-fill, fill, length-fill, replicate, if◌then◌else◌, Bool-cases,
}
use pi_ssc_ssd_ssa.Public.{Entry, port_num}
use pi_ssc_ssd_ssa.Public.Compare.{same_text}
use pi_ssc_ssd_ssa.Public.Message.{message, int_arg, learn_sta, LearnSta, msgid_mac_inter_learn}
use pi_ssc_ssd_ssa.Hlist.{Hlist}
use pi_ssc_ssd_ssa.Pi.Db.{Env, IsDb}
use pi_ssc_ssd_ssa.Pi.Local.{
  enable_text, disable_text, learn_status, pi_local_learn_sta, pi_update_local_db, learn_sta_of,
}
use pi_ssc_ssd_ssa.Pi.Ports.{pi_local_learn_sta-ports}
use pi_ssc_ssd_ssa.Pi.Server.{Fd, send_loop}
use pi_ssc_ssd_ssa.Pi.Cli.{Net, c_string, Console, learn, command}
use pi_ssc_ssd_ssa.Pi.Cli.Done.{argument, status_or, command-Done}
use pi_ssc_ssd_ssa.Ssc.Comm.{
  Platform, Ssc, ssc_recevie_msg_pi, ssc_send_ssd_conf, ssc_modify_inter_lean_sta, locked_write,
}
use pi_ssc_ssd_ssa.Ssc.Remove.{after_send}
use pi_ssc_ssd_ssa.Ssc.Db.{lock, unlock}

-- The comparison stops at the zero byte, so it does not see that the text was cut there.
same_text-c_string : (n : ℕ) (xs ys : List ℕ) → same_text n (c_string xs) ys ≡ same_text n xs ys
unfolding same_text c_string
same_text-c_string zero xs ys = refl
same_text-c_string (suc n) [] ys = refl
same_text-c_string (suc n) (x ∷ xs) [] = elim (Bool-cases (x == 0)) [
  | inl last ↦ simp (last, same_text)
  | inr more ↦ simp (more, same_text)
]
same_text-c_string (suc n) (x ∷ xs) (y ∷ ys) = elim (Bool-cases (x == 0)) [
  | inl last ↦ simp (last, same_text)
  | inr more ↦ simp (more, same_text, same_text-c_string n xs ys)
]

learn_status-c_string : (xs : List ℕ) → learn_status (c_string xs) ≡ learn_status xs
unfolding learn_status
learn_status-c_string xs =
    rw (same_text-c_string 6 xs enable_text, same_text-c_string 7 xs disable_text) refl

module _ (H : Hlist Entry) where
  -- The message of the command, handled by the SSC.
  pub ssc_learn :
      (env : Env) (platform : Platform) (status : ℕ) (s : Ssc H)
      → s.db.locked ≡ false
      → length s.db.port_status ≡ port_num + 1
      → (s' : Ssc H) × (ssc_recevie_msg_pi H env platform
            (message msgid_mac_inter_learn (int_arg status))
            s
          ≡ some s')
        × ((j : ℕ)
            → get_or s'.db.port_status j 0
              ≡ (if leb j port_num then status else get_or s.db.port_status j 0))
        × (s'.db.locked ≡ false)
        × (length s'.db.port_status ≡ length s.db.port_status)
  unfolding ssc_recevie_msg_pi ssc_modify_inter_lean_sta locked_write lock unlock
  ssc_learn env platform status s free size =
      let tmp : LearnSta = record {
        port_id = fill port_num 1 platform.phyid (replicate (port_num + 1) env.junk);
        status = status;
      } in
      let ports = fill (port_num + 1) 0 (λ i. status) s.db.port_status in
      let db = record s.db { port_status = ports; locked = false } in
      (
        record (ssc_send_ssd_conf H env platform msgid_mac_inter_learn (learn_sta tmp) s) {
          db = db;
        },
        after_send H env platform msgid_mac_inter_learn (learn_sta tmp) _ s db (simp free),
        λ j. ground (
          arith,
          get_or-fill (port_num + 1) 0 (λ i. status) s.db.port_status j 0 (omega (arith, size)),
        ),
        refl,
        length-fill (port_num + 1) 0 (λ i. status) s.db.port_status,
      )

  -- The command that switches the learning of addresses, with memory for its message, changes the
  -- places 0 to 23 of the management process to the status of its argument, and no place where the
  -- argument is neither of the two texts. Its message makes the SSC, whose mutex is free, set its
  -- places 0 to 24 to the status of the argument, and where there is none, to whatever the variable
  -- held that was not set.
  pub learn_command-ports :
      (env : Env) (net : Net) (junk : ℕ) (str : List ℕ) (listening : Fd) (l : List Fd)
      (c : Console H) (platform : Platform) (s : Ssc H)
      → net.mem ≡ true
      → c.g_client ≡ listening ∷ l
      → IsDb H c.db
      → s.db.locked ≡ false
      → length s.db.port_status ≡ port_num + 1
      → let known = learn_status (argument str) in
        let m = message msgid_mac_inter_learn (int_arg (status_or junk known)) in
        (c' : Console H) × (s' : Ssc H) × (command H env net junk (learn str) c ≡ some c')
        × (c'.sent ≡ c.sent ++ ((m, send_loop net.wrote listening l) ∷ []))
        × (ssc_recevie_msg_pi H env platform m s ≡ some s')
        × ((j : ℕ)
            → get_or c'.db.port_status j 0 ≡ (elim known [
              | some v ↦ if ltb j port_num then v else get_or c.db.port_status j 0
              | none ↦ get_or c.db.port_status j 0
            ]))
        × ((j : ℕ)
            → get_or s'.db.port_status j 0
              ≡ (if leb j port_num then status_or junk known else get_or s.db.port_status j 0))
  unfolding pi_update_local_db learn_sta_of
  learn_command-ports env net junk str listening l c platform s mem g v free size =
      let (c', run, d) = command-Done H env net junk listening l (learn str) c mem g v in
      let arg = argument str in
      let same : some (pi_local_learn_sta H (c_string arg) c.db) ≡ some c'.db = d.changed in
      let done : pi_local_learn_sta H (c_string arg) c.db ≡ c'.db = cc in
      let (s', run', ports, _, _) = ssc_learn env platform _ s free size in
      (
        c',
        s',
        run,
        d.sent,
        run',
        λ j.
            rw
              (
                ← done,
                pi_local_learn_sta-ports H (c_string arg) c.db j v,
                learn_status-c_string arg,
              )
              refl,
        ports,
      )
