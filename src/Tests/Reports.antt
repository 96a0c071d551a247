-- ===== src/Tests/Reports.antt =====
-- Concrete runs of the report card and of the metrics.
use moaje_work.Database.{Database}
use moaje_work.Decimal.{Ratio}
use moaje_work.Schema.{ModelColumn, ModelTable, DbTable, has_name, sync_schema, sync_existing}
use moaje_work.Schema.Additions.{sync_schema_again}
use moaje_work.Prelude.{◌≡◌, ◌↔◌, refl, true, false, some, [], ◌∷◌, Bool, String, ℕ, ◌≤◌}
use moaje_work.Report.{not_evaluated}
use moaje_work.Report.Service.{get_semester_report}
use moaje_work.Report.Bounds.{parts, report_total}
use moaje_work.Tests.Fraud.{empty_db}

-- The tenth of March 2026.
abbrev in_march : ℕ
in_march = 63908784000

abbrev no_root : Ratio → Ratio
no_root r = r

abbrev one_day : Database
one_day = record empty_db {
  analysis_logs = record { user_id = 7; daily_limit = some 300000000; created_at = in_march } ∷ [];
}

report_total_example :
    let r = get_semester_report no_root 7 2026 1 one_day in
    (r.overall_score ≡ parts r)
    × (r.overall_score ≤ 100)
    × ((r.overall_grade ≡ not_evaluated) ↔ (r.spending.total_log_days ≡ 0))
report_total_example = report_total no_root 7 2026 1 one_day

-- A table of alerts that lacks two columns, of which one would have no value in its rows.
abbrev pub alerts_model : ModelTable
alerts_model = record {
  name = "fds_alert_log";
  columns =
      record { name = "id"; nullable = false; has_server_default = false }
      ∷ record { name = "note"; nullable = true; has_server_default = false }
      ∷ record { name = "kind"; nullable = false; has_server_default = false }
      ∷ [];
  indexes = record { name = "ix_note"; columns = "note" ∷ [] } ∷ [];
}

abbrev pub old_alerts : DbTable
old_alerts = record { name = "fds_alert_log"; columns = "id" ∷ []; indexes = "ix_id" ∷ [] }

abbrev pub all_printed : ModelColumn → Bool
all_printed c = true

abbrev pub all_accepted : String → String → Bool
all_accepted table name = true

sync_schema_again_example :
    let synced = sync_schema all_printed all_accepted true (alerts_model ∷ []) (old_alerts ∷ []) in
    let after = sync_existing all_printed all_accepted (alerts_model ∷ []) old_alerts in
    (has_name after.columns "id" ≡ true)
    × ((has_name after.indexes "ix_id" ≡ true)
        × (sync_schema all_printed all_accepted true (alerts_model ∷ []) synced ≡ synced))
sync_schema_again_example =
    sync_schema_again all_printed all_accepted true (alerts_model ∷ []) (old_alerts ∷ []) old_alerts
      "id" "ix_id" refl refl
