-- ===== src/Raw/Peer/Buffers/Report.antt =====
-- The buffers of `RakNetStatistics.to_string` and `__str__` are large enough.
use raknet_python.Prelude.{zero, suc, refl, ◌<◌, ◌≡◌, some, arith, length}
use raknet_python.Prelude.Int.{negsuc, ℤ, pos, ◌≤ℤ◌, clamp_0_2}
use raknet_python.Raw.Interface.{RakNet, Bytes}
use raknet_python.Raw.Peer.Buffers.{buffered, statistics_to_string, statistics_str}

-- The nearest of 0, 1 and 2.
abbrev pub saturated : ℤ → ℤ
saturated (negsuc n) = pos 0
saturated (pos zero) = pos 0
saturated (pos (suc zero)) = pos 1
saturated (pos (suc (suc n))) = pos 2

clamp_0_2-saturated : (v : ℤ) → clamp_0_2 v ≡ saturated v
unfolding clamp_0_2
clamp_0_2-saturated (negsuc n) = ground arith
clamp_0_2-saturated (pos zero) = refl
clamp_0_2-saturated (pos (suc zero)) = refl
clamp_0_2-saturated (pos (suc (suc n))) = ground arith

saturated_bounds : (v : ℤ) → (pos 0 ≤ℤ saturated v) × (saturated v ≤ℤ pos 2)
saturated_bounds (negsuc n) = omega arith
saturated_bounds (pos zero) = omega arith
saturated_bounds (pos (suc zero)) = omega arith
saturated_bounds (pos (suc (suc n))) = omega arith

buffered-some : (report : Bytes) → length report < 4096 → buffered report ≡ some report
unfolding buffered
buffered-some report h = ground arith

module _ (R : RakNet) where
  open R use {RakNetStatistics}

  -- RakNet's reports at the verbosity levels 0 to 2 are shorter than the buffer.
  pub record ShortReports : Type 0 where
    pub fits :
        (s : RakNetStatistics) (v : ℤ)
        → pos 0 ≤ℤ v
        → v ≤ℤ pos 2
        → length (R.statistics_to_string s v) < 4096

  -- Where RakNet's reports at verbosity 0 to 2 fit the buffer, `to_string` never writes past it,
  -- whatever the verbosity: below 0 it gives the report at 0, above 2 the report at 2, and else
  -- the report asked for. `__str__` gives the report at 0.
  pub statistics_to_string_saturates :
      ShortReports
      → (s : RakNetStatistics) (v : ℤ)
      → (statistics_to_string R s v ≡ some (R.statistics_to_string s (saturated v)))
        × (statistics_str R s ≡ some (R.statistics_to_string s (pos 0)))
  unfolding statistics_to_string statistics_str
  statistics_to_string_saturates short s v =
      let (low, high) = saturated_bounds v in
      (
        rw (clamp_0_2-saturated v) (buffered-some _ (short.fits s (saturated v) low high)),
        buffered-some _ (short.fits s (pos 0) (omega arith) (omega arith)),
      )
