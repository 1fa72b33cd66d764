-- ===== src/Examples/Tracks.antt =====
-- The temporal CPU tracks on small data.
use vim_config.Prelude.{refl, List, [], ◌∷◌, arith, dec_lt}
use vim_config.Prelude.Order.{lt_wf}
use vim_config.Cpu.Bits.{leading_zeros}
use vim_config.Cpu.Quantum.{adaptive_quantum, temporal_quantum, temporal_storage_quantum}
use vim_config.Wire.Put.{put_bytes, put_loop, put_uvarint, check_wire_size}
use vim_config.Wire.Temporal.Encode.{Sample, put_track}
use vim_config.Wire.Temporal.Track.{Decoded, read_track-put_track}

-- 100 ticks in each of two intervals of 200 ms: one run of the quantum 4. Then nothing in 1 s.
abbrev samples : List Sample
samples = (200_000_000, 103) ∷ (400_000_000, 203) ∷ (1_400_000_000, 203) ∷ []

read_track-put_track_example :
    Decoded 1000 0 3 samples [] (3 ∷ 2 ∷ 2 ∷ 4 ∷ 25 ∷ 200 ∷ 1 ∷ 1 ∷ 1 ∷ 0 ∷ [])
unfolding put_track check_wire_size put_uvarint put_loop lt_wf dec_lt put_bytes
    temporal_storage_quantum temporal_quantum adaptive_quantum leading_zeros
read_track-put_track_example =
    read_track-put_track 1000 0 3 samples [] (omega arith) (omega arith) (omega arith)
      ((omega arith, omega arith), ((omega arith, omega arith), ((omega arith, omega arith), tt)))
      refl
