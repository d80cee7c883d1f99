-- ===== src/Http/Contract/Enums.antt =====
-- Enumerated types of the contract: the `Valid` methods of internal/httpapi/gen, each on the text
-- of a value.
use gowallet.Prelude.{String, Bool, ◌==◌, ◌||◌}

-- `AccountSummaryRole.Valid`
abbrev pub account_summary_role_valid : String → Bool
account_summary_role_valid e = e == "admin" || e == "member"

-- `HealthDb.Valid`
abbrev pub health_db_valid : String → Bool
health_db_valid e = e == "down" || e == "up"

-- `HealthStatus.Valid`
abbrev pub health_status_valid : String → Bool
health_status_valid e = e == "degraded" || e == "ok"

-- `RedemptionKind.Valid`
abbrev pub redemption_kind_valid : String → Bool
redemption_kind_valid e = e == "redeem"

-- `TokenResponseTokenType.Valid`
abbrev pub token_type_valid : String → Bool
token_type_valid e = e == "Bearer"

-- `AuditEntryOutcome.Valid`
abbrev pub audit_entry_outcome_valid : String → Bool
audit_entry_outcome_valid e = e == "accepted" || e == "duplicate" || e == "rejected"

-- `LedgerEntryKind.Valid`
abbrev pub ledger_entry_kind_valid : String → Bool
ledger_entry_kind_valid e = e == "earn" || e == "redeem" || e == "spend"

-- `TransactionKind.Valid`
abbrev pub transaction_kind_valid : String → Bool
transaction_kind_valid e = e == "earn" || e == "spend"
