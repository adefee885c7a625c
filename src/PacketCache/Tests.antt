-- ===== src/PacketCache/Tests.antt =====
-- Runs of packetcache/packetcache.go on small caches, and the theorems at a concrete cache.
use galene.Base.{
  ℕ, ◌≤◌, ◌≡◌, refl, true, false, some, List, [], ◌∷◌, arith, Returns, replicate, length, All,
  length-replicate,
}
use galene.Seqno.{compare16}
use galene.PacketCache.LossBitmap.{seqno_invalid, set_bit, get_bits}
use galene.PacketCache.LossBitmap.Window.{Updated, set_bit-Updated}
use galene.PacketCache.{written, Cache, Entry, buf_size, store, get_at, resize, to_bitmap}
use galene.PacketCache.Ring.{IsValid, Queued, store-Queued, history}
use galene.PacketCache.Resize.{resize-history}
use galene.PacketCache.Retrieve.{HasBuffer, Packet, store_all, get_at-store_all}
use galene.PacketCache.Stats.{IsCounted, store-IsCounted}

-- Three entries, the second written last; the stream has reached packet 1001.
abbrev slot : ℕ → Entry
slot n = record { seqno = n; length_and_marker = 2; timestamp = 90; buf = replicate buf_size 0 }

abbrev sample : Cache
sample = record {
  last = 1001;
  cycle = 0;
  last_valid = true;
  expected = 3;
  total_expected = 10;
  received = 3;
  total_received = 9;
  keyframe = 999;
  keyframe_valid = true;
  bitmap = record { valid = true; first = 1002; bitmap = 0 };
  tail = 2;
  entries = slot 1000 ∷ slot 1001 ∷ slot 999 ∷ [];
}

sample-IsValid : IsValid sample
sample-IsValid = record { tail_in = omega arith; few = omega arith }

sample-IsCounted : IsCounted sample
sample-IsCounted = record {
  last_word = omega arith;
  received_le = omega arith;
  expected_word = omega arith;
}

slot-HasBuffer : (n : ℕ) → HasBuffer (slot n)
slot-HasBuffer n = length-replicate {A = ℕ} buf_size 0

sample-HasBuffer : All HasBuffer sample.entries
sample-HasBuffer = (slot-HasBuffer 1000, (slot-HasBuffer 1001, (slot-HasBuffer 999, tt)))

-- 1002 is missing when 1003 is stored.
sample_first : set_bit sample.bitmap 1003 ≡ record { valid = true; first = 1002; bitmap = 2 }
unfolding set_bit compare16
sample_first = refl

sample_losses :
    (get_bits (record { valid = true; first = 1002; bitmap = 0b1010 }) 1006).1 ≡ (true, 1002, 2)
unfolding get_bits compare16
sample_losses = refl

nack_pair : to_bitmap (10 ∷ 11 ∷ 13 ∷ 40 ∷ []) ≡ some (10, 5, 40 ∷ [])
unfolding to_bitmap
nack_pair = refl

store-Queued_example :
    Returns
      (λ (x : Cache × (ℕ × ℕ)).
        Queued sample.entries 2 1002 93 true (1 ∷ 2 ∷ 3 ∷ []) (x.0, x.1.1)
        × (x.1.0 ≡ x.0.bitmap.first))
      (store sample 1002 93 false true (1 ∷ 2 ∷ 3 ∷ []))
store-Queued_example = store-Queued sample 1002 93 false true (1 ∷ 2 ∷ 3 ∷ []) sample-IsValid

store-IsCounted_example :
    Returns (λ (x : Cache × (ℕ × ℕ)). IsCounted x.0) (store sample 1004 93 false true (1 ∷ []))
store-IsCounted_example =
    store-IsCounted sample 1004 93 false true (1 ∷ []) sample-IsValid sample-IsCounted (omega arith)
      (omega arith)

abbrev payload : List ℕ
payload = 1 ∷ 2 ∷ 3 ∷ []

-- The sample after packet 1002 is stored.
abbrev sample_after : Cache
sample_after = record sample {
  last = 1002;
  expected = 4;
  received = 4;
  bitmap = record { valid = true; first = 1002; bitmap = 1 };
  tail = 0;
  entries = slot 1000 ∷ slot 1001 ∷ written (slot 999) 1002 93 true payload ∷ [];
}

packet_stored : store sample 1002 93 false true payload ≡ some (sample_after, (1002, 2))
unfolding store set_bit compare16
packet_stored = refl

abbrev later_packet : Packet
later_packet = record {
  seqno = 1003;
  timestamp = 94;
  keyframe = false;
  marker = false;
  payload = 9 ∷ [];
}

get_at-store_all_example :
    Returns
      (λ c''. get_at c'' 1002 2 (0 ∷ 0 ∷ 0 ∷ 0 ∷ []) ≡ some (1 ∷ 2 ∷ 3 ∷ 0 ∷ [], 3))
      (store_all sample_after (later_packet ∷ []))
get_at-store_all_example =
    get_at-store_all sample 1002 93 false true payload (0 ∷ 0 ∷ 0 ∷ 0 ∷ []) (later_packet ∷ [])
      sample-IsValid sample-HasBuffer (omega arith) (omega arith) (omega arith) packet_stored

resize-history_example :
    Returns
      (λ c'. (length c'.entries ≡ 2) × (c'.tail ≤ 1) × (history c' ≡ slot 1000 ∷ slot 1001 ∷ []))
      (resize sample 2)
resize-history_example = resize-history sample 2 sample-IsValid

set_bit-Updated_example : Updated sample.bitmap 1003 (set_bit sample.bitmap 1003)
unfolding compare16 seqno_invalid
set_bit-Updated_example =
    set_bit-Updated sample.bitmap 1003
      (record { first_word = omega arith; bitmap_word = omega arith }) refl (omega arith) refl refl
