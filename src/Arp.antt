-- ===== src/Arp.antt =====
-- net/arp.c: the cache of addresses, and the packets it sends. An IP address is the number of its
-- four bytes and a MAC address the number of its six; the fields of a packet are in host order,
-- which htons and ntohs leave and restore.
pub mod Cache
mod Tests
use cool_frost.Prelude.{
  ℕ, zero, suc, ◌+◌, ◌-◌, ◌*◌, ◌/◌, ◌%◌, ◌^◌, ◌≤◌, ◌<◌, min, bit_and, bit_or, bit_xor, ◌≡◌, refl,
  sym, ap, ◌∙◌, ◌≢◌, ◌↔◌, ◌⊎◌, inl, inr, Bool, true, false, not, ◌&&◌, ◌||◌, Option, none, some,
  List, [], ◌∷◌, ◌++◌, map, arith, ltb, leb, ◌==◌, if◌then◌else◌, Bool-cases, Option-cases, length,
  get_elem?, get_or, set, take, drop, replicate, wrap8, wrap32, wrap64, sub32, sub64,
}

pub record ArpEntry : Type 0 where
  pub ip : ℕ
  pub mac : ℕ
  pub valid : Bool

abbrev pub arp_cache_size : ℕ
arp_cache_size = 16

-- `arp_pkt_t`
pub record ArpPacket : Type 0 where
  pub hw_type : ℕ
  pub proto_type : ℕ
  pub hw_len : ℕ
  pub proto_len : ℕ
  pub opcode : ℕ
  pub sender_mac : ℕ
  pub sender_ip : ℕ
  pub target_mac : ℕ
  pub target_ip : ℕ

-- The static variables of net/arp.c, the host's own addresses, and the frames sent, the last first,
-- each with the address that it goes to.
pub record Arp : Type 0 where
  pub cache : ℕ → ArpEntry
  pub cache_next : ℕ
  pub net_mac : ℕ
  pub net_ip : ℕ
  pub sent : List (ℕ × ArpPacket)

-- the test of both loops over the cache
abbrev pub matches : ArpEntry → (ip : ℕ) → Bool
matches e ip = e.valid && e.ip == ip

-- The first entry that matches, in `left` entries from `i` on.
pub entry_from : (ℕ → ArpEntry) → (ip left i : ℕ) → Option ℕ
entry_from cache ip zero i = none
entry_from cache ip (suc left) i =
    let later = entry_from cache ip left (i + 1) in if matches (cache i) ip then some i else later

pub arp_lookup : (ℕ → ArpEntry) → (ip : ℕ) → Option ℕ
unfolding entry_from
arp_lookup cache ip = elim (entry_from cache ip arp_cache_size 0) [
  | none ↦ none
  | some i ↦ some (cache i).mac
]

abbrev pub put : (ℕ → ArpEntry) → (i : ℕ) → ArpEntry → ℕ → ArpEntry
put cache i e k = if k == i then e else cache k

pub arp_insert : Arp → (ip mac : ℕ) → Arp
unfolding entry_from
arp_insert s ip mac = elim (entry_from s.cache ip arp_cache_size 0) [
  | some i ↦ record s { cache = put s.cache i (record (s.cache i) { mac = mac }) }
  | none ↦ record s {
    cache = put s.cache s.cache_next (record { ip = ip; mac = mac; valid = true });
    cache_next = (s.cache_next + 1) % arp_cache_size;
  }
]

abbrev pub broadcast : ℕ
broadcast = 2 ^ 48 - 1

-- a frame of type ETH_TYPE_ARP given to eth_send
abbrev pub eth_send : Arp → (to : ℕ) → ArpPacket → Arp
eth_send s to p = record s { sent = (to, p) ∷ s.sent }

pub arp_send_request : Arp → (target_ip : ℕ) → Arp
arp_send_request s target_ip = eth_send s broadcast (record {
  hw_type = 1;
  proto_type = 0x0800;
  hw_len = 6;
  proto_len = 4;
  opcode = 1;
  sender_mac = s.net_mac;
  sender_ip = s.net_ip;
  target_mac = 0;
  target_ip = target_ip;
})

pub reply_to : Arp → ArpPacket → ArpPacket
reply_to s p = record {
  hw_type = 1;
  proto_type = 0x0800;
  hw_len = 6;
  proto_len = 4;
  opcode = 2;
  sender_mac = s.net_mac;
  sender_ip = s.net_ip;
  target_mac = p.sender_mac;
  target_ip = p.sender_ip;
}

-- `sizeof(arp_pkt_t)`
abbrev pub packet_size : ℕ
packet_size = 28

-- The frame's payload has `len` bytes, and `p` is what they say.
pub arp_handle : Arp → ArpPacket → (len : ℕ) → Arp
unfolding arp_insert reply_to
arp_handle s p len =
    let s1 = arp_insert s p.sender_ip p.sender_mac in
    if ltb len packet_size
    then s
    else if not (p.hw_type == 1)
    then s
    else if not (p.proto_type == 0x0800)
    then s
    else if p.opcode == 1 && not (s.net_ip == 0) && p.target_ip == s.net_ip
    then eth_send s1 p.sender_mac (reply_to s1 p)
    else s1
