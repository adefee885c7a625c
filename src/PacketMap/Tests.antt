-- ===== src/PacketMap/Tests.antt =====
-- Runs of packetmap/packetmap.go on small streams, and the theorems at a concrete map.
use galene.Base.{◌-◌, ℕ, ◌≡◌, refl, true, some, List, [], ◌∷◌, arith, Returns, replicate}
use galene.Base.Word.{sub16}
use galene.Seqno.{compare16}
use galene.PacketMap.{Map, refused, map, drop, direct, reverse, add_mapping}
use galene.PacketMap.Bounds.{IsValid, Sound, map-Sound}
use galene.PacketMap.InOrder.{
  Event, sent, discarded, late, run, Renumbered, run-Renumbered, next_target,
}
use galene.PacketMap.Lookup.{reverse-map}
use galene.PacketMap.LongRun.{plain, reverse-run}

-- Packet 100 was dropped, 101 and 102 were sent.
abbrev sample : Map
sample = record {
  next = 103;
  next_pid = 7;
  delta = 65535;
  pid_delta = 0;
  last_entry = 1;
  entries =
      record { first = 100 - 92; count = 92; delta = 0; pid_delta = 0 }
      ∷ record { first = 101; count = 2; delta = 65535; pid_delta = 0 }
      ∷ [];
}

sample-IsValid : IsValid sample
sample-IsValid = ground arith

-- The sample after packet 103 is sent.
abbrev sample_after : Map
sample_after = record sample {
  next = 104;
  entries =
      record { first = 8; count = 92; delta = 0; pid_delta = 0 }
      ∷ record { first = 101; count = 3; delta = 65535; pid_delta = 0 }
      ∷ [];
}

abbrev events : List Event
events = sent 5 ∷ discarded 6 ∷ late 2 5 ∷ sent 7 ∷ []

packet_mapped : map sample 103 7 ≡ some (sample_after, (true, 102, 0))
unfolding map compare16 add_mapping
packet_mapped = refl

-- Packet 100 itself was dropped.
packet_refused : direct sample 100 ≡ some refused
unfolding direct compare16
packet_refused = refl

number_reversed : reverse sample 101 ≡ some (true, 102, 0)
unfolding reverse compare16
number_reversed = refl

map-Sound_example : Returns Sound (map sample 103 7)
map-Sound_example = map-Sound sample 103 7 sample-IsValid (omega arith) (omega arith)

run-Renumbered_example : Returns (Renumbered sample events) (run sample events)
run-Renumbered_example = run-Renumbered events sample sample-IsValid (omega arith)

reverse-map_example :
    (reverse sample_after 102 ≡ some (true, 103, 0))
    × (direct sample_after 103 ≡ some (true, 102, 0))
unfolding compare16
reverse-map_example =
    reverse-map sample 103 7 sample-IsValid refl (omega arith) refl (omega arith) packet_mapped refl
      (omega arith)

reverse-run_example :
    Returns
      (λ (x : Map × List ℕ). reverse x.0 (sub16 (next_target x.0) 1) ≡ some refused)
      (run (drop (plain 100 7) 100 7).0 (replicate 40000 (sent 7)))
reverse-run_example =
    reverse-run 100 7 7 40000 (omega arith) (omega arith) (omega arith) (omega arith) (omega arith)
