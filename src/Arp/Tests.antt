-- ===== src/Arp/Tests.antt =====
-- Addresses learnt by net/arp.c.
use cool_frost.Prelude.{ℕ, ◌<◌, ◌≡◌, refl, ◌≢◌, false, some, [], ◌∷◌, arith, length}
use cool_frost.Arp.{
  Arp, ArpPacket, arp_cache_size, matches, entry_from, arp_lookup, arp_insert, arp_handle, reply_to,
  arp_send_request,
}
use cool_frost.Arp.Cache.{arp_insert_lem}

abbrev host : Arp
host = record {
  cache = λ _. record { ip = 0; mac = 0; valid = false };
  cache_next = 0;
  net_mac = 7;
  net_ip = 0x0a000002;
  sent = [];
}

-- who has 10.0.0.2, asked by 10.0.0.1
abbrev question : ArpPacket
question = record {
  hw_type = 1;
  proto_type = 0x0800;
  hw_len = 6;
  proto_len = 4;
  opcode = 1;
  sender_mac = 5;
  sender_ip = 0x0a000001;
  target_mac = 0;
  target_ip = 0x0a000002;
}

learns_the_sender : arp_lookup (arp_handle host question 28).cache 0x0a000001 ≡ some 5
unfolding arp_handle arp_insert arp_lookup entry_from
learns_the_sender = refl

answers : (arp_handle host question 28).sent ≡ (5, reply_to host question) ∷ []
unfolding arp_handle arp_insert entry_from reply_to
answers = refl

asks : length (arp_send_request host 0x0a000001).sent ≡ 1
unfolding arp_send_request
asks = refl

arp_insert_lem_example :
    (arp_lookup (arp_insert host 0x0a000001 5).cache 0x0a000001 ≡ some 5)
    × ((other : ℕ)
        → other ≢ 0x0a000001
        → matches (host.cache host.cache_next) other ≡ false
        → arp_lookup (arp_insert host 0x0a000001 5).cache other ≡ arp_lookup host.cache other)
    × ((arp_insert host 0x0a000001 5).cache_next < arp_cache_size)
arp_insert_lem_example = arp_insert_lem host 0x0a000001 5 (omega arith)
