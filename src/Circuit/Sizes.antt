-- ===== src/Circuit/Sizes.antt =====
-- The number of comparisons of `run_circuit_psi` in triangle_counting/functionalities.cpp.
use sectric.Common.{ℕ, ◌*◌, ◌/◌, ◌%◌, ◌<◌, ◌≡◌, ◌↔◌, arith}
use sectric.Circuit.{num_cmps}

-- The number of comparisons of `run_circuit_psi` is a multiple of eight, as the AND tree needs
-- it, exactly if the number of bins is a multiple of four.
pub num_cmps_aligned : (nbins : ℕ) → (num_cmps nbins % 8 ≡ 0) ↔ (nbins % 4 ≡ 0)
unfolding num_cmps
num_cmps_aligned nbins = (λ h. omega arith, λ h. omega arith)

pub num_cmps_groups : (nbins : ℕ) → nbins % 4 ≡ 0 → num_cmps nbins ≡ 8 * (num_cmps nbins / 8)
unfolding num_cmps
num_cmps_groups nbins h = omega arith

pub num_cmps_above : (nbins b : ℕ) → b < nbins → b < num_cmps nbins
unfolding num_cmps
num_cmps_above nbins b h = omega arith
