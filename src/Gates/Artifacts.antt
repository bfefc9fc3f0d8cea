-- ===== src/Gates/Artifacts.antt =====
-- backend/src/awf/gates/artifacts.py, and the row that backend/src/awf/artifacts.py inserts. The
-- file that holds the payload is no part of the model, and its sha256, from which its relative path
-- follows, is a parameter.
use jarvis_awf.Prelude.{String, List, [], ◌∷◌}
use jarvis_awf.Prelude.Table
use jarvis_awf.Json.{bool, str, arr, obj, Items, nil, cons, Dict, end, field}
use jarvis_awf.Exec.{ok, pure, ◌>>=◌, ◌>>◌}
use jarvis_awf.Database.{M, Artifact, uuid7, utc_now_rfc3339}
use jarvis_awf.Gates.Findings.{
  Severity, low, medium, high, critical, FindingRole, verifier, adversary, Tier, default, high_risk,
  Finding, Verdict, category_name,
}

abbrev pub role_name : FindingRole → String
role_name verifier = "verifier"
role_name adversary = "adversary"

abbrev pub severity_name : Severity → String
severity_name low = "low"
severity_name medium = "medium"
severity_name high = "high"
severity_name critical = "critical"

abbrev pub tier_name : Tier → String
tier_name default = "default"
tier_name high_risk = "high-risk"

-- Finding.to_dict
abbrev pub finding_dict : Finding → Dict
finding_dict f = field "role" (str (role_name f.role)) (
    field "category" (str (category_name f.category)) (
      field "severity" (str (severity_name f.severity))
        (field "summary" (str f.summary) (field "details" (obj f.details) end))))

finding_items : List Finding → Items
finding_items [] = nil
finding_items (f ∷ fs) = cons (obj (finding_dict f)) (finding_items fs)

-- Verdict.to_dict
unfoldable pub verdict_dict : Verdict → Dict
unfolding finding_items
verdict_dict v = field "passed" (bool v.passed) (
    field "tier" (str (tier_name v.tier))
      (field "reason" (str v.reason) (field "findings" (arr (finding_items v.findings)) end)))

-- insert_artifact_row
abbrev insert_artifact : String → Artifact → M Unit
insert_artifact k row w = (ok tt, record w { artifacts = Table.insert_new k row w.artifacts })

module _ (sha256 : Dict → String) (run_id step_id : String) where
  -- write_artifact
  unfoldable pub write_artifact : Dict → String → M String
  write_artifact payload artifact_type = do
    artifact_id ← uuid7
    now ← utc_now_rfc3339
    insert_artifact artifact_id (record {
      run_id = run_id;
      step_id = step_id;
      sha256 = sha256 payload;
      media_type = "application/json";
      artifact_type = artifact_type;
      created_at = now;
    })
    pure artifact_id

  abbrev pub write_finding_artifact : Finding → M String
  write_finding_artifact f = write_artifact (finding_dict f) "finding"

  unfoldable pub write_finding_artifacts : List Finding → M Unit
  write_finding_artifacts [] = pure tt
  write_finding_artifacts (f ∷ fs) = do write_finding_artifact f; write_finding_artifacts fs

  abbrev pub write_verdict_artifact : Verdict → M String
  write_verdict_artifact v = write_artifact (verdict_dict v) "verdict"
