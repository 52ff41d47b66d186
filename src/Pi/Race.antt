-- ===== src/Pi/Race.antt =====
-- `pthread_ds_fun` and `pi_local_learn_sta`, which take no mutex, read by read and write by write.
pub mod Orders
use pi_ssc_ssd_ssa.Common.{
  ℕ, zero, suc, ◌+◌, ◌≤◌, ◌<◌, ◌≡◌, refl, sym, ap, ◌∙◌, Option, none, some, true, List, [], ◌∷◌,
  ◌++◌, arith, leb, ltb, set, get_or, fill, replicate, if◌then◌else◌,
}
use pi_ssc_ssd_ssa.Public.{Entry, port_num}
use pi_ssc_ssd_ssa.Public.Message.{
  Msg, message, nothing, conf_info, ConfInfo, msgid_start, msgid_ing, msgid_end,
}
use pi_ssc_ssd_ssa.Hlist.{Hlist}
use pi_ssc_ssd_ssa.Pi.Db.{Db}
use pi_ssc_ssd_ssa.Pi.Local.{learn_status, learn_loop, pi_local_learn_sta}

-- Whose turn it is: the loop of `pthread_ds_fun`, or that of `pi_local_learn_sta`.
pub data Turn : Type 0 where
  reads : Turn
  writes : Turn

learn_loop_once :
    (n i : ℕ) (str ports : List ℕ) (v : ℕ)
    → learn_status str ≡ some v
    → learn_loop (suc n) i str ports ≡ learn_loop n (i + 1) str (set ports i v)
unfolding learn_loop
learn_loop_once n i str ports v known = rw (known, learn_loop) refl

module _ (H : Hlist Entry) where
  -- The database, `tmp` and the `i` of the loop that reads, and the `i` of the loop that writes.
  pub record Race : Type 0 where
    pub db : Db H
    pub tmp : ConfInfo
    pub next : ℕ
    pub written : ℕ

  -- The age time has been read, and the loops are about to begin. The array in `tmp` is not set.
  abbrev pub begun : ℕ → Db H → Race
  begun junk db = record {
    db = db;
    tmp = record { age_time = db.age_time; port_status = replicate (port_num + 1) junk };
    next = 1;
    written = 0;
  }

  -- A round of the loop that reads; nothing where it has come to its end.
  unfoldable pub read_port : Race → Race
  read_port r =
      if leb r.next port_num
      then record r {
        tmp = record r.tmp {
          port_status = set r.tmp.port_status r.next (get_or r.db.port_status r.next 0);
        };
        next = suc r.next;
      }
      else r

  -- A round of the loop that writes; nothing where it has come to its end, or the text is unknown.
  unfoldable pub write_port : List ℕ → Race → Race
  write_port str r = elim (learn_status str) [
    | some v ↦
        if ltb r.written port_num
        then record r {
          db = record r.db { port_status = set r.db.port_status r.written v };
          written = r.written + 1;
        }
        else r
    | none ↦ r
  ]

  abbrev pub turn : List ℕ → Turn → Race → Race
  turn str reads r = read_port r
  turn str writes r = write_port str r

  unfoldable pub turns : List ℕ → List Turn → Race → Race
  turns str [] r = r
  turns str (t ∷ ts) r = turns str ts (turn str t r)

  -- What the thread sends of what it has read.
  abbrev pub ds_messages : ConfInfo → List Msg
  ds_messages tmp =
      message msgid_start nothing
      ∷ message msgid_ing (conf_info tmp)
      ∷ message msgid_end nothing
      ∷ []

  pub turns-append :
      (str : List ℕ) (ts us : List Turn) (r : Race)
      → turns str (ts ++ us) r ≡ turns str us (turns str ts r)
  unfolding turns
  turns-append str [] us r = refl
  turns-append str (t ∷ ts) us r = turns-append str ts us (turn str t r)

  -- The state after n rounds of the loop that reads.
  abbrev pub after_reads : ℕ → Race → Race
  after_reads n r = record r {
    tmp = record r.tmp {
      port_status = fill n r.next (λ i. get_or r.db.port_status i 0) r.tmp.port_status;
    };
    next = r.next + n;
  }

  -- The state after n rounds of the loop that writes.
  abbrev pub after_writes : List ℕ → ℕ → Race → Race
  after_writes str n r = record r {
    db = record r.db { port_status = learn_loop n r.written str r.db.port_status };
    written = r.written + n;
  }

  pub read_port_once :
      (r : Race)
      → r.next ≤ port_num
      → read_port r ≡ record r {
        tmp = record r.tmp {
          port_status = set r.tmp.port_status r.next (get_or r.db.port_status r.next 0);
        };
        next = suc r.next;
      }
  unfolding read_port
  read_port_once r h = let room : leb r.next port_num ≡ true = ground arith in rw room refl

  pub write_port_once :
      (str : List ℕ) (v : ℕ) (r : Race)
      → learn_status str ≡ some v
      → r.written < port_num
      → write_port str r ≡ record r {
        db = record r.db { port_status = set r.db.port_status r.written v };
        written = r.written + 1;
      }
  unfolding write_port set
  write_port_once str v r known h =
      let room : ltb r.written port_num ≡ true = ground arith in rw (known, write_port, room) refl

  -- Rounds of the loop that reads, with none of the other between them.
  pub turns-reads :
      (str : List ℕ) (n : ℕ) (r : Race)
      → r.next + n ≤ port_num + 1
      → turns str (replicate n reads) r ≡ after_reads n r
  unfolding turns replicate fill
  turns-reads str zero r h = ap (λ i. record r { next = i }) (omega arith)
  turns-reads str (suc n) r h =
      let ports = set r.tmp.port_status r.next (get_or r.db.port_status r.next 0) in
      let r' = record r { tmp = record r.tmp { port_status = ports }; next = suc r.next } in
      let rest = fill n (suc r.next) (λ i. get_or r.db.port_status i 0) ports in
      ap (turns str (replicate n reads)) (read_port_once r (omega (arith, h)))
      ∙ turns-reads str n r' (omega (arith, h))
      ∙ ap (λ i. record r { tmp = record r.tmp { port_status = rest }; next = i }) (omega arith)

  -- Rounds of the loop that writes, with none of the other between them.
  pub turns-writes :
      (str : List ℕ) (n v : ℕ) (r : Race)
      → learn_status str ≡ some v
      → r.written + n ≤ port_num
      → turns str (replicate n writes) r ≡ after_writes str n r
  unfolding turns replicate learn_loop
  turns-writes str zero v r known h = ap (λ i. record r { written = i }) (omega arith)
  turns-writes str (suc n) v r known h =
      let ports = set r.db.port_status r.written v in
      let r' = record r { db = record r.db { port_status = ports }; written = r.written + 1 } in
      let rest = learn_loop n (r.written + 1) str ports in
      ap (turns str (replicate n writes)) (write_port_once str v r known (omega (arith, h)))
      ∙ turns-writes str n v r' known (omega (arith, h))
      ∙ ap (λ i. record r { db = record r.db { port_status = rest }; written = i }) (omega arith)
      ∙ ap (λ l. record r { db = record r.db { port_status = l }; written = r.written + suc n })
          (sym (learn_loop_once n r.written str r.db.port_status v known))
