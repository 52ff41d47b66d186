-- ===== src/Public/Hash.antt =====
-- `hash_function` of pi/hash_tab_oper.c and of ssc/ssc_db_manger.c (the same code).
use Prim.Native.Nat.{bit_xor}
use pi_ssc_ssd_ssa.Common.{ℕ, ◌+◌, ◌*◌, ◌%◌, ◌^◌, ◌<◌, ◌≡◌, refl, Bool, true, arith, if◌then◌else◌}
use pi_ssc_ssd_ssa.Common.Words.{bit_xor-mod}
use pi_ssc_ssd_ssa.Public.{Mac, Key, hash_size}

-- `memcpy(&hmac, &mac[0], 2)` fills two of the four bytes of a local variable that nothing has set;
-- `junk` is what the other two hold. The processor may store the low byte first or last.
unfoldable pub load_hmac : Bool → ℕ → Mac → ℕ
load_hmac little junk m =
    if little
    then m.b0 + 256 * m.b1 + 2 ^ 16 * junk
    else junk % 2 ^ 16 + 2 ^ 16 * m.b1 + 2 ^ 24 * m.b0

-- `memcpy(&lmac, &mac[2], 4)`
unfoldable pub load_lmac : Bool → Mac → ℕ
load_lmac little m =
    if little
    then m.b2 + 256 * m.b3 + 2 ^ 16 * m.b4 + 2 ^ 24 * m.b5
    else m.b5 + 256 * m.b4 + 2 ^ 16 * m.b3 + 2 ^ 24 * m.b2

unfoldable pub hash_on : Bool → ℕ → Mac → ℕ → ℕ
unfolding load_hmac load_lmac
hash_on little junk mac vid =
    bit_xor (bit_xor vid (load_hmac little junk mac)) (load_lmac little mac) % hash_size

-- The function on a processor that stores the low byte first.
unfoldable pub hash_function : ℕ → Mac → ℕ → ℕ
unfolding hash_on
hash_function junk mac vid = hash_on true junk mac vid

-- The chain of a key, as an index.
unfoldable pub home : Key → ℕ
home q = hash_function 0 q.mac q.vlan_id

pub hash_function-junk :
    (junk : ℕ) (mac : Mac) (vid : ℕ) → hash_function junk mac vid ≡ hash_function 0 mac vid
unfolding hash_function
hash_function-junk junk mac vid = bit_xor-mod _ _ _ _ (bit_xor-mod _ _ _ _ refl (omega arith)) refl

-- The index lies in the array, whatever the unset bytes hold.
pub hash_on-lt :
    (little : Bool) (junk : ℕ) (mac : Mac) (vid : ℕ) → hash_on little junk mac vid < hash_size
unfolding hash_on
hash_on-lt little junk mac vid = omega arith

pub home-lt : (q : Key) → home q < hash_size
unfolding home hash_function hash_on
home-lt q = omega arith

pub hash-home :
    (junk : ℕ) (mac : Mac) (vid : ℕ)
    → hash_function junk mac vid ≡ home (record { mac = mac; vlan_id = vid })
unfolding home
hash-home junk mac vid = hash_function-junk junk mac vid
