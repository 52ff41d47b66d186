-- ===== src/Pi/Printing.antt =====
-- The columns of a row, read back.
use pi_ssc_ssd_ssa.Common.{
  ℕ, ◌+◌, ◌-◌, ◌*◌, ◌/◌, ◌%◌, ◌<◌, ◌≡◌, refl, Bool, true, false, Option, none, some, List, [], ◌∷◌,
  arith, ltb, get_or, if◌then◌else◌,
}
use pi_ssc_ssd_ssa.Public.{Mac, Entry}
use pi_ssc_ssd_ssa.Pi.Show.{
  Printed, vlan_col, mac_col, static_col, dynamic_col, hex_digit, print_pairs, print_entry,
}
use pi_ssc_ssd_ssa.Pi.Rows.{port_col}

-- The value of a digit, of two digits, and of the columns of a row.
digit_value : ℕ → ℕ
digit_value c = if ltb c b'a' then c - b'0' else c - b'a' + 10

abbrev value2 : ℕ → ℕ → ℕ
value2 hi lo = digit_value hi * 16 + digit_value lo

-- What a row tells: the kind, the VLAN, the address and the port.
pub record Shown : Type 0 where
  pub dynamic : Bool
  pub vlan_id : ℕ
  pub mac : Mac
  pub port_id : ℕ

read_port : Printed → Option (Bool × ℕ)
read_port (static_col port) = some (false, port)
read_port (dynamic_col port) = some (true, port)
read_port p = none

-- The reader of a row.
unfoldable pub read_row : List Printed → Option Shown
unfolding read_port digit_value
read_row
      (vlan_col v
        ∷ mac_col (a ∷ b ∷ c ∷ d ∷ dot1 ∷ [])
        ∷ mac_col (e ∷ f ∷ g ∷ h ∷ dot2 ∷ [])
        ∷ mac_col (i ∷ j ∷ k ∷ l ∷ dot3 ∷ [])
        ∷ last
        ∷ []) =
    elim (read_port last) [
      | none ↦ none
      | some (d', port) ↦ some (record {
        dynamic = d';
        vlan_id = v;
        mac = record {
          b0 = value2 a b;
          b1 = value2 c d;
          b2 = value2 e f;
          b3 = value2 g h;
          b4 = value2 i j;
          b5 = value2 k l;
        };
        port_id = port;
      })
    ]
read_row l = none

digit_value-hex_digit : (d : ℕ) → d < 16 → digit_value (hex_digit d) ≡ d
unfolding digit_value hex_digit
digit_value-hex_digit d h = ground arith

value2-hex2 : (b : ℕ) → b < 256 → value2 (hex_digit (b / 16)) (hex_digit (b % 16)) ≡ b
value2-hex2 b h =
    let hi = digit_value-hex_digit (b / 16) (omega arith) in
    let lo = digit_value-hex_digit (b % 16) (omega arith) in omega (arith, hi, lo)

-- Six bytes.
pub record IsMac (m : Mac) : Type 0 where
  pub b0 : m.b0 < 256
  pub b1 : m.b1 < 256
  pub b2 : m.b2 < 256
  pub b3 : m.b3 < 256
  pub b4 : m.b4 < 256
  pub b5 : m.b5 < 256

-- The address whose bytes are printed as these digits.
abbrev mac_of_digits : Mac → Mac
mac_of_digits m = record {
  b0 = value2 (hex_digit (m.b0 / 16)) (hex_digit (m.b0 % 16));
  b1 = value2 (hex_digit (m.b1 / 16)) (hex_digit (m.b1 % 16));
  b2 = value2 (hex_digit (m.b2 / 16)) (hex_digit (m.b2 % 16));
  b3 = value2 (hex_digit (m.b3 / 16)) (hex_digit (m.b3 % 16));
  b4 = value2 (hex_digit (m.b4 / 16)) (hex_digit (m.b4 % 16));
  b5 = value2 (hex_digit (m.b5 / 16)) (hex_digit (m.b5 % 16));
}

mac_values : (m : Mac) → IsMac m → mac_of_digits m ≡ m
mac_values m v = cc (
  value2-hex2 m.b0 v.b0,
  value2-hex2 m.b1 v.b1,
  value2-hex2 m.b2 v.b2,
  value2-hex2 m.b3 v.b3,
  value2-hex2 m.b4 v.b4,
  value2-hex2 m.b5 v.b5,
)

-- A row that is printed for an entry with an address of six bytes tells the kind, the VLAN, the
-- address and the port of the entry.
pub read_row-print_entry :
    (d : Bool) (e : Entry)
    → IsMac e.mac
    → read_row (print_entry (port_col d) e)
      ≡ some (record { dynamic = d; vlan_id = e.vlan_id; mac = e.mac; port_id = e.port_id })
unfolding read_row print_entry print_pairs get_or
read_row-print_entry true e v = rw (mac_values e.mac v) refl
read_row-print_entry false e v = rw (mac_values e.mac v) refl
