-- ===== src/Pi/Race/Orders.antt =====
-- The loop that reads the ports and the loop that writes them, in any order of their rounds.
use pi_ssc_ssd_ssa.Common.{
  ℕ, suc, ◌+◌, ◌≤◌, ◌<◌, ◌≡◌, refl, sym, ap, ◌∙◌, ◌⊎◌, inl, inr, Bool, true, false, some, List, [],
  ◌∷◌, arith, leb, ltb, length, length-set, set, get_or, get_or-set, get_or_ext, count_if,
  length-replicate, if◌then◌else◌, Bool-cases,
}
use pi_ssc_ssd_ssa.Public.{Entry, port_num}
use pi_ssc_ssd_ssa.Hlist.{Hlist}
use pi_ssc_ssd_ssa.Pi.Db.{Db, IsDb}
use pi_ssc_ssd_ssa.Pi.Local.{learn_status, pi_local_learn_sta}
use pi_ssc_ssd_ssa.Pi.Ports.{pi_local_learn_sta-ports, pi_local_learn_sta-IsDb}
use pi_ssc_ssd_ssa.Pi.Race.{
  Turn, reads, writes, Race, begun, read_port, write_port, turns, read_port_once, write_port_once,
}

abbrev pub is_read : Turn → Bool
is_read reads = true
is_read writes = false

abbrev pub is_write : Turn → Bool
is_write reads = false
is_write writes = true

module _ (H : Hlist Entry) (str : List ℕ) (v : ℕ) (db : Db H) where
  -- Between two rounds: the places that are written have the status v, the others are as they were,
  -- and each port that is read is as it was or has the status v.
  record IsMixed (r : Race H) : Type 0 where
    room : length r.db.port_status ≡ port_num + 1
    tmp_room : length r.tmp.port_status ≡ port_num + 1
    rest : r.db ≡ record db { port_status = r.db.port_status }
    written : r.written ≤ port_num
    places :
        (j : ℕ)
        → get_or r.db.port_status j 0 ≡ (if ltb j r.written then v else get_or db.port_status j 0)
    read :
        (j : ℕ)
        → 1 ≤ j
        → j < r.next
        → (get_or r.tmp.port_status j 0 ≡ get_or db.port_status j 0)
          ⊎ (get_or r.tmp.port_status j 0 ≡ v)

  begun-IsMixed : (junk : ℕ) → IsDb H db → IsMixed (begun H junk db)
  begun-IsMixed junk w = record {
    room = w.ports;
    tmp_room = length-replicate (port_num + 1) junk;
    rest = refl;
    written = omega arith;
    places = λ j. ground arith;
    read = λ j low high. absurd (omega (arith, low, high));
  }

  read_port_end : (r : Race H) → leb r.next port_num ≡ false → read_port H r ≡ r
  unfolding read_port
  read_port_end r end = rw end refl

  write_port_end :
      (r : Race H)
      → learn_status str ≡ some v
      → ltb r.written port_num ≡ false
      → write_port H str r ≡ r
  unfolding write_port set
  write_port_end r known end = rw (known, write_port, end) refl

  -- A port that is read next has been written or not.
  new_read :
      (r : Race H) (j : ℕ)
      → IsMixed r
      → r.next ≤ port_num
      → 1 ≤ j
      → j < suc r.next
      → let tmp = set r.tmp.port_status r.next (get_or r.db.port_status r.next 0) in
        (get_or tmp j 0 ≡ get_or db.port_status j 0) ⊎ (get_or tmp j 0 ≡ v)
  new_read r j w more low high =
      let now = get_or r.db.port_status r.next 0 in
      let put = get_or-set r.tmp.port_status r.next j now 0 (omega (arith, more, w.tmp_room)) in
      elim (Bool-cases (ltb j r.next)) [
        | inl before ↦ elim (w.read j low (ground (arith, before))) [
          | inl old ↦ inl (ground (arith, put, old, before))
          | inr new ↦ inr (ground (arith, put, new, before))
        ]
        | inr this ↦
            let same : r.next ≡ j = ground (arith, this, high) in
            elim (Bool-cases (ltb j r.written)) [
              | inl done ↦ inr (ground (arith, put, w.places j, done, same))
              | inr todo ↦ inl (ground (arith, put, w.places j, todo, same))
            ]
      ]

  read_port-IsMixed : (r : Race H) → IsMixed r → IsMixed (read_port H r)
  read_port-IsMixed r w = elim (Bool-cases (leb r.next port_num)) [
    | inl more ↦
        let now = get_or r.db.port_status r.next 0 in
        let ports = set r.tmp.port_status r.next now in
        let r' = record r { tmp = record r.tmp { port_status = ports }; next = suc r.next } in
        let w' : IsMixed r' = record {
          room = w.room;
          tmp_room = length-set r.tmp.port_status r.next now ∙ w.tmp_room;
          rest = w.rest;
          written = w.written;
          places = w.places;
          read = λ j low high. new_read r j w (ground (arith, more)) low high;
        } in
        rw (read_port_once H r (ground (arith, more))) w'
    | inr end ↦ rw (read_port_end r end) w
  ]

  write_port-IsMixed :
      (r : Race H) → learn_status str ≡ some v → IsMixed r → IsMixed (write_port H str r)
  write_port-IsMixed r known w = elim (Bool-cases (ltb r.written port_num)) [
    | inl more ↦
        let ports = set r.db.port_status r.written v in
        let r' = record r { db = record r.db { port_status = ports }; written = r.written + 1 } in
        let w' : IsMixed r' = record {
          room = length-set r.db.port_status r.written v ∙ w.room;
          tmp_room = w.tmp_room;
          rest = ap {A = Db H} (λ d. record d { port_status = ports }) w.rest;
          written = ground (arith, more);
          places = λ j. ground (
            arith,
            w.places j,
            get_or-set r.db.port_status r.written j v 0 (ground (arith, more, w.room)),
          );
          read = w.read;
        } in
        rw (write_port_once H str v r known (ground (arith, more))) w'
    | inr end ↦ rw (write_port_end r known end) w
  ]

  turns-IsMixed :
      (ts : List Turn) (r : Race H)
      → learn_status str ≡ some v
      → IsMixed r
      → IsMixed (turns H str ts r)
  unfolding turns
  turns-IsMixed [] r known w = w
  turns-IsMixed (reads ∷ ts) r known w = turns-IsMixed ts _ known (read_port-IsMixed r w)
  turns-IsMixed (writes ∷ ts) r known w = turns-IsMixed ts _ known (write_port-IsMixed r known w)

  read_port-next :
      (r : Race H) (n : ℕ) → port_num + 1 ≤ r.next + suc n → port_num + 1 ≤ (read_port H r).next + n
  read_port-next r n h = elim (Bool-cases (leb r.next port_num)) [
    | inl more ↦ rw (read_port_once H r (ground (arith, more))) (omega (arith, h))
    | inr end ↦ rw (read_port_end r end) (ground (arith, end))
  ]

  read_port-written : (r : Race H) → (read_port H r).written ≡ r.written
  unfolding read_port
  read_port-written r = ground arith

  write_port-next : (r : Race H) → learn_status str ≡ some v → (write_port H str r).next ≡ r.next
  write_port-next r known = elim (Bool-cases (ltb r.written port_num)) [
    | inl more ↦ rw (write_port_once H str v r known (ground (arith, more))) refl
    | inr end ↦ rw (write_port_end r known end) refl
  ]

  write_port-written :
      (r : Race H) (n : ℕ)
      → learn_status str ≡ some v
      → port_num ≤ r.written + suc n
      → port_num ≤ (write_port H str r).written + n
  write_port-written r n known h = elim (Bool-cases (ltb r.written port_num)) [
    | inl more ↦ rw (write_port_once H str v r known (ground (arith, more))) (omega (arith, h))
    | inr end ↦ rw (write_port_end r known end) (ground (arith, end))
  ]

  -- Where there are enough rounds of both loops, both come to their ends.
  turns_all :
      (ts : List Turn) (r : Race H)
      → learn_status str ≡ some v
      → port_num + 1 ≤ r.next + count_if is_read ts
      → port_num ≤ r.written + count_if is_write ts
      → (port_num + 1 ≤ (turns H str ts r).next) × (port_num ≤ (turns H str ts r).written)
  unfolding turns count_if
  turns_all [] r known h g = (omega (arith, h), omega (arith, g))
  turns_all (reads ∷ ts) r known h g =
      turns_all ts (read_port H r) known (read_port-next r _ h) (rw (read_port-written r) g)
  turns_all (writes ∷ ts) r known h g =
      turns_all ts (write_port H str r) known (rw (write_port-next r known) h)
        (write_port-written r _ known g)

  -- Let the text be known and the database in order. However the rounds of the two loops follow one
  -- another, if there are enough of both, the array of the management process is in the end as if the
  -- command had been alone, and nothing else of the database has changed; and each port in what the
  -- thread sends is as it was before the command, or as the command has it.
  pub turns-old_or_new :
      (ts : List Turn) (junk : ℕ)
      → learn_status str ≡ some v
      → IsDb H db
      → port_num ≤ count_if is_read ts
      → port_num ≤ count_if is_write ts
      → let r = turns H str ts (begun H junk db) in
        (r.db ≡ pi_local_learn_sta H str db)
        × ((j : ℕ)
            → 1 ≤ j
            → j ≤ port_num
            → (get_or r.tmp.port_status j 0 ≡ get_or db.port_status j 0)
              ⊎ (get_or r.tmp.port_status j 0 ≡ v))
  unfolding pi_local_learn_sta
  turns-old_or_new ts junk known w read written =
      let m = turns-IsMixed ts (begun H junk db) known (begun-IsMixed junk w) in
      let r = turns H str ts (begun H junk db) in
      let (next, all) =
        turns_all ts (begun H junk db) known (omega (arith, read)) (omega (arith, written)) in
      let end : r.written ≡ port_num = omega (arith, all, m.written) in
      let alone = pi_local_learn_sta H str db in
      let new : (j : ℕ)
          → get_or alone.port_status j 0
            ≡ (if ltb j port_num then v else get_or db.port_status j 0) =
        λ j. pi_local_learn_sta-ports H str db j w ∙ rw known refl in
      let ports : r.db.port_status ≡ alone.port_status =
        get_or_ext 0 _ _ (m.room ∙ sym (pi_local_learn_sta-IsDb H str db w).ports)
          (λ j. m.places j ∙ rw end (sym (new j))) in
      (
        m.rest ∙ ap {A = List ℕ} (λ l. record db { port_status = l }) ports,
        λ j low high. m.read j low (omega (arith, high, next)),
      )
