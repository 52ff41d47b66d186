-- ===== src/Public.antt =====
-- ss_public.h (the same file in pi, ssc, ssd and ssa): constants, message numbers and the structures
-- that the four processes exchange. A u8, u32 or int field holds its bit pattern as a number.
pub mod Compare
pub mod Hash
pub mod Message
pub mod Kinds
use pi_ssc_ssd_ssa.Common.{ℕ, ◌^◌, List, [], ◌∷◌}

abbrev pub hash_size : ℕ
hash_size = 1024

abbrev pub port_num : ℕ
port_num = 24

abbrev pub mac_len : ℕ
mac_len = 6

abbrev pub vlan_min_size : ℕ
vlan_min_size = 1

abbrev pub vlan_max_size : ℕ
vlan_max_size = 4094

-- The number of values of a u32.
abbrev pub u32_mod : ℕ
u32_mod = 2 ^ 32

-- `u8 mac[MAC_LEN]`
pub record Mac : Type 0 where
  pub b0 : ℕ
  pub b1 : ℕ
  pub b2 : ℕ
  pub b3 : ℕ
  pub b4 : ℕ
  pub b5 : ℕ

abbrev pub bytes : Mac → List ℕ
bytes m = m.b0 ∷ m.b1 ∷ m.b2 ∷ m.b3 ∷ m.b4 ∷ m.b5 ∷ []

-- `pi_mac_entry_t`, less the node by which it hangs in a chain.
pub record Entry : Type 0 where
  pub mac : Mac
  pub flags : ℕ
  pub vlan_id : ℕ
  pub port_id : ℕ
  pub addr_type : ℕ

-- `base_static_mac_t`
pub record StaticMac : Type 0 where
  pub mac : Mac
  pub vlan_id : ℕ
  pub port_id : ℕ

-- `memset(tmp, 0, sizeof(pi_mac_entry_t))`
abbrev pub zero_mac : Mac
zero_mac = record { b0 = 0; b1 = 0; b2 = 0; b3 = 0; b4 = 0; b5 = 0 }

abbrev pub zero_entry : Entry
zero_entry = record { mac = zero_mac; flags = 0; vlan_id = 0; port_id = 0; addr_type = 0 }

abbrev pub memset_zero : Entry → Entry
memset_zero e = zero_entry

-- The key of a table: a MAC address in a VLAN.
pub record Key : Type 0 where
  pub mac : Mac
  pub vlan_id : ℕ

abbrev pub key_of : Entry → Key
key_of e = record { mac = e.mac; vlan_id = e.vlan_id }
