-- ===== src/Header/Safety.antt =====
-- No access outside the buffer.
use air_tree.Common.{◌≢◌}
use air_tree.Header.Bytes.{Result, err, out_of_bounds}

abbrev pub IsSafe {ℓ} : {A : Type ℓ} → Result A → Type ℓ
IsSafe r = r ≢ err out_of_bounds
