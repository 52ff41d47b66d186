-- ===== src/Public/Compare.antt =====
-- The comparisons of MAC addresses: `memcmp(a, b, n) == 0` and `strncmp(a, b, n) == 0`.
use pi_ssc_ssd_ssa.Common.{
  ℕ, zero, suc, ◌≡◌, refl, ◌↔◌, ◌≢◌, Bool, true, false, ◌&&◌, ◌||◌, List, [], ◌∷◌, arith, ◌==◌,
}
use pi_ssc_ssd_ssa.Public.{Mac, Entry, Key, bytes, key_of, mac_len}

unfoldable pub same_bytes : ℕ → List ℕ → List ℕ → Bool
same_bytes zero xs ys = true
same_bytes (suc n) [] ys = false
same_bytes (suc n) (x ∷ xs) [] = false
same_bytes (suc n) (x ∷ xs) (y ∷ ys) = x == y && same_bytes n xs ys

-- Unlike `memcmp`, `strncmp` stops at a zero byte.
unfoldable pub same_text : ℕ → List ℕ → List ℕ → Bool
same_text zero xs ys = true
same_text (suc n) [] ys = false
same_text (suc n) (x ∷ xs) [] = false
same_text (suc n) (x ∷ xs) (y ∷ ys) = x == y && (x == 0 || same_text n xs ys)

-- `memcmp(assist->mac, mac, MAC_LEN) == 0 && assist->vlan_id == vlan_id`
unfoldable pub memcmp_key : Key → Entry → Bool
memcmp_key q a = same_bytes mac_len (bytes a.mac) (bytes q.mac) && a.vlan_id == q.vlan_id

-- `strncmp(assist->mac, mac, MAC_LEN) == 0 && assist->vlan_id == vlan_id`
unfoldable pub strncmp_key : Key → Entry → Bool
strncmp_key q a = same_text mac_len (bytes a.mac) (bytes q.mac) && a.vlan_id == q.vlan_id

-- Comparing the six bytes and the VLAN decides equality of keys.
pub memcmp_key_iff : (q : Key) (a : Entry) → (memcmp_key q a ≡ true) ↔ (key_of a ≡ q)
unfolding memcmp_key same_bytes
memcmp_key_iff q a = (λ h. ground arith, λ h. ground arith)

-- No zero byte before the last.
pub record IsPlain (m : Mac) : Type 0 where
  pub n0 : m.b0 ≢ 0
  pub n1 : m.b1 ≢ 0
  pub n2 : m.b2 ≢ 0
  pub n3 : m.b3 ≢ 0
  pub n4 : m.b4 ≢ 0

-- On a plain address `strncmp` and `memcmp` agree.
pub strncmp_key_plain : (q : Key) (a : Entry) → IsPlain q.mac → strncmp_key q a ≡ memcmp_key q a
unfolding memcmp_key same_bytes strncmp_key same_text
strncmp_key_plain q a p = ground arith

-- Equal keys pass both comparisons.
pub strncmp-of-memcmp : (q : Key) (a : Entry) → memcmp_key q a ≡ true → strncmp_key q a ≡ true
unfolding memcmp_key same_bytes strncmp_key same_text
strncmp-of-memcmp q a h = ground arith

-- The test of two keys that agree answers alike.
pub memcmp_key_congr :
    (q : Key) (a b : Entry) → memcmp_key (key_of b) a ≡ true → memcmp_key q a ≡ memcmp_key q b
unfolding memcmp_key same_bytes
memcmp_key_congr q a b h = ground arith

-- A key that passes the test at an entry tests as that entry's key does.
pub memcmp_key_same :
    (q : Key) (e a : Entry) → memcmp_key q e ≡ true → memcmp_key q a ≡ memcmp_key (key_of e) a
memcmp_key_same q e a h = rw ((memcmp_key_iff q e).0 h)

pub memcmp_key_refl : (a : Entry) → memcmp_key (key_of a) a ≡ true
memcmp_key_refl a = (memcmp_key_iff (key_of a) a).1 refl
