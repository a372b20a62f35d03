-- ===== src/Farm/Reading/Laws.antt =====
-- admin-frontend/src/components/farm/FarmDataReaders.ts: the farms of a snapshot.
use flux_swap_dex.Common.{ℕ, List, []}
use flux_swap_dex.Api.Values.{Attempt, ok, failed}
use flux_swap_dex.Farm.{FarmRow}
use flux_swap_dex.Farm.Reading.{FarmAdminSnapshot}

pid_or : ℕ → Attempt FarmRow → ℕ
pid_or d (ok row) = row.pid
pid_or d (failed e) = d

rows_of : Attempt (List FarmRow) → List FarmRow
rows_of (ok rows) = rows
rows_of (failed e) = []

farms_of : Attempt FarmAdminSnapshot → List FarmRow
farms_of (ok s) = s.farms
farms_of (failed e) = []

count_of : Attempt FarmAdminSnapshot → ℕ
count_of (ok s) = s.admin_info.pool_length
count_of (failed e) = 0
