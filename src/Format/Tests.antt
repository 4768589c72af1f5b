-- ===== src/Format/Tests.antt =====
-- Concrete byte counts.
use go_drive.Base.{◌≡◌, refl, some}
use go_drive.Format.{format_bytes, format_store_bytes, format_public_bytes}
use go_drive.Format.Log.{floor_log, log_fuel}
use go_drive.Format.Laws.{HasFit, format_bytes_fits}

one_and_a_half : format_bytes 1536 ≡ record { value = 15; decimals = 1; unit = some "KB" }
unfolding format_bytes floor_log log_fuel
one_and_a_half = refl

ten : format_store_bytes 10240 ≡ record { value = 10; decimals = 0; unit = some "KB" }
unfolding format_store_bytes floor_log log_fuel
ten = refl

format_bytes_fits_example :
    HasFit 1536 (format_store_bytes 1536) × HasFit 1536 (format_public_bytes 1536)
format_bytes_fits_example = format_bytes_fits 1536
