-- ===== src/Store/AuditLogs.antt =====
-- internal/store/audit.go: the audit log, written inside the transactions of the other operations.
use github_pr_review_agent.Common.{ℕ, ◌==◌, Option, ◌∷◌, codes, if◌then◌else◌}
use github_pr_review_agent.Store.Tables.{Status, AuditAction, Detail, AuditLog, Database}
use github_pr_review_agent.Store.Transaction.{Conn, Result, ok, err, broken, statement, ◌>>◌}

-- Statement number k of the transaction on `db`. An action is never blank, and a status never
-- empty.
unfoldable pub insert_audit_log :
    Conn → ℕ → ℕ → AuditAction → Option Status → Option Status → Detail → Database → Result Database
unfolding statement
insert_audit_log c k id action old new detail db =
    if id == 0
    then err (broken (codes "audit task id is required"))
    else do statement c k; ok (record db { audit = entry ∷ db.audit })
  where
    entry : AuditLog
    entry = record {
      task_id = id;
      action = action;
      old_status = old;
      new_status = new;
      detail = detail;
      created_at = c.clock;
    }
