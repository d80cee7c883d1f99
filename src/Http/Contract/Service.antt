-- ===== src/Http/Contract/Service.antt =====
-- The response objects of the other operations.
use gowallet.Prelude.{List}
use gowallet.Wallet.{AuditEntry}
use gowallet.Http.Response.{Response, BatchSummary, write_json, audit_list, summary, token, health}
use gowallet.Http.Contract.Bodies.{ErrorBody, error_body, TokenResponse, HealthBody}

-- `ListAuditResponseObject`
pub data ListAuditResponseObject : Type 0 where
  list_audit_200 : List AuditEntry → ListAuditResponseObject
  list_audit_400 list_audit_401 list_audit_403 : ErrorBody → ListAuditResponseObject

-- `VisitListAuditResponse`
abbrev pub visit_list_audit : ListAuditResponseObject → Response
visit_list_audit (list_audit_200 body) = write_json 200 (audit_list body)
visit_list_audit (list_audit_400 e) = write_json 400 (error_body e)
visit_list_audit (list_audit_401 e) = write_json 401 (error_body e)
visit_list_audit (list_audit_403 e) = write_json 403 (error_body e)

-- `IngestBatchResponseObject`
pub data IngestBatchResponseObject : Type 0 where
  ingest_batch_200 : BatchSummary → IngestBatchResponseObject
  ingest_batch_400 ingest_batch_401 ingest_batch_403 : ErrorBody → IngestBatchResponseObject

-- `VisitIngestBatchResponse`
abbrev pub visit_ingest_batch : IngestBatchResponseObject → Response
visit_ingest_batch (ingest_batch_200 body) = write_json 200 (summary body)
visit_ingest_batch (ingest_batch_400 e) = write_json 400 (error_body e)
visit_ingest_batch (ingest_batch_401 e) = write_json 401 (error_body e)
visit_ingest_batch (ingest_batch_403 e) = write_json 403 (error_body e)

-- `GetHealthResponseObject`
pub data GetHealthResponseObject : Type 0 where
  get_health_200 : HealthBody → GetHealthResponseObject
  get_health_503 : HealthBody → GetHealthResponseObject

-- `VisitGetHealthResponse`
abbrev pub visit_get_health : GetHealthResponseObject → Response
visit_get_health (get_health_200 h) = write_json 200 (health h.status h.db)
visit_get_health (get_health_503 h) = write_json 503 (health h.status h.db)

-- `LoginResponseObject`
pub data LoginResponseObject : Type 0 where
  login_200 : TokenResponse → LoginResponseObject
  login_400 login_401 : ErrorBody → LoginResponseObject

-- `VisitLoginResponse`
abbrev pub visit_login : LoginResponseObject → Response
visit_login (login_200 t) = write_json 200 (token t.token t.token_type t.expires_in)
visit_login (login_400 e) = write_json 400 (error_body e)
visit_login (login_401 e) = write_json 401 (error_body e)
