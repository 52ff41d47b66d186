-- ===== src/Public/Kinds.antt =====
-- The kinds of bodies that a message can have.
use pi_ssc_ssd_ssa.Common.{ℕ, ◌≡◌, Bool, true, false}
use pi_ssc_ssd_ssa.Public.{Entry, StaticMac}
use pi_ssc_ssd_ssa.Public.Message.{
  ConfInfo, DsInfo, Payload, nothing, int_arg, text, static_mac, mac_entry, conf_info, learn_sta,
  ds_info,
}

abbrev pub is_static_mac : Payload → Bool
is_static_mac (static_mac m) = true
is_static_mac p = false

abbrev pub is_int : Payload → Bool
is_int (int_arg n) = true
is_int p = false

abbrev pub is_conf : Payload → Bool
is_conf (conf_info c) = true
is_conf p = false

abbrev pub is_entry : Payload → Bool
is_entry (mac_entry e) = true
is_entry p = false

abbrev pub is_ds : Payload → Bool
is_ds (ds_info d) = true
is_ds p = false

-- To show something of a payload of one kind.
pub by_int {ℓ} :
    (P : Payload → Type ℓ) → ((x : ℕ) → P (int_arg x)) → (p : Payload) → is_int p ≡ true → P p
by_int P f nothing ok = cc
by_int P f (int_arg n) ok = f n
by_int P f (text t) ok = cc
by_int P f (static_mac m) ok = cc
by_int P f (mac_entry e) ok = cc
by_int P f (conf_info c) ok = cc
by_int P f (learn_sta l) ok = cc
by_int P f (ds_info d) ok = cc

pub by_static_mac {ℓ} :
    (P : Payload → Type ℓ)
    → ((x : StaticMac) → P (static_mac x))
    → (p : Payload) → is_static_mac p ≡ true
    → P p
by_static_mac P f nothing ok = cc
by_static_mac P f (int_arg n) ok = cc
by_static_mac P f (text t) ok = cc
by_static_mac P f (static_mac m) ok = f m
by_static_mac P f (mac_entry e) ok = cc
by_static_mac P f (conf_info c) ok = cc
by_static_mac P f (learn_sta l) ok = cc
by_static_mac P f (ds_info d) ok = cc

pub by_conf {ℓ} :
    (P : Payload → Type ℓ)
    → ((x : ConfInfo) → P (conf_info x))
    → (p : Payload) → is_conf p ≡ true
    → P p
by_conf P f nothing ok = cc
by_conf P f (int_arg n) ok = cc
by_conf P f (text t) ok = cc
by_conf P f (static_mac m) ok = cc
by_conf P f (mac_entry e) ok = cc
by_conf P f (conf_info c) ok = f c
by_conf P f (learn_sta l) ok = cc
by_conf P f (ds_info d) ok = cc

pub by_entry {ℓ} :
    (P : Payload → Type ℓ)
    → ((x : Entry) → P (mac_entry x))
    → (p : Payload) → is_entry p ≡ true
    → P p
by_entry P f nothing ok = cc
by_entry P f (int_arg n) ok = cc
by_entry P f (text t) ok = cc
by_entry P f (static_mac m) ok = cc
by_entry P f (mac_entry e) ok = f e
by_entry P f (conf_info c) ok = cc
by_entry P f (learn_sta l) ok = cc
by_entry P f (ds_info d) ok = cc

pub by_ds {ℓ} :
    (P : Payload → Type ℓ) → ((x : DsInfo) → P (ds_info x)) → (p : Payload) → is_ds p ≡ true → P p
by_ds P f nothing ok = cc
by_ds P f (int_arg n) ok = cc
by_ds P f (text t) ok = cc
by_ds P f (static_mac m) ok = cc
by_ds P f (mac_entry e) ok = cc
by_ds P f (conf_info c) ok = cc
by_ds P f (learn_sta l) ok = cc
by_ds P f (ds_info d) ok = f d
