-- ===== src/Campaign/Report/Refusals.antt =====
-- Which reports internal/campaign/report.go refuses, and what the exit code of
-- cmd/email-pipeline/run_command.go says.
use personalized_email_pipel.Prelude.{
  ◌+◌, ◌<◌, ◌≡◌, ◌↔◌, inl, inr, Bool, true, false, Option, none, some, arith, sym, ◌∙◌, Bool-cases,
}
use personalized_email_pipel.Prelude.Int64.{add64}
use personalized_email_pipel.Campaign.Accounting.{derive_outcome-success_iff}
use personalized_email_pipel.Campaign.Model.{Outcome, success, validate, derive_outcome}
use personalized_email_pipel.Campaign.Report.{
  RunReport, ReportDocument, outcome_eq, report_holds, document_of, marshal_report, scope_fits,
  valid_optional_evidence, write_run_report,
}

outcome_eq_sound : (a b : Outcome) → outcome_eq a b ≡ true → a ≡ b
outcome_eq_sound a b h = ground arith

pub outcome_eq_refl : (a : Outcome) → outcome_eq a a ≡ true
outcome_eq_refl a = ground arith

-- What a report that is written guarantees.
pub record IsReportable (r : RunReport) : Type 0 where
  pub evidence : valid_optional_evidence r ≡ true
  pub valid_counts : validate r.counts ≡ true
  pub started_split : r.started ≡ add64 r.counts.completed r.counts.failed
  pub outcome_derived : r.outcome ≡ derive_outcome r.counts r.cancelled r.fatal
  pub scope_fitting : scope_fits r.fatal r.scope ≡ true

IsReportable-of_holds : (r : RunReport) → report_holds r ≡ true → IsReportable r
unfolding report_holds
IsReportable-of_holds r h =
    ground (arith, outcome_eq_sound r.outcome (derive_outcome r.counts r.cancelled r.fatal))

holds_of_reportable : (r : RunReport) → IsReportable r → report_holds r ≡ true
unfolding report_holds
holds_of_reportable r v = ground (arith, outcome_eq_refl r.outcome)

pub marshal_report-some : (r : RunReport) → IsReportable r → marshal_report r ≡ some (document_of r)
unfolding marshal_report
marshal_report-some r v = rw (holds_of_reportable r v)

marshal_report_needs :
    (r : RunReport) (d : ReportDocument) → marshal_report r ≡ some d → report_holds r ≡ true
unfolding marshal_report
marshal_report_needs r d h = elim (Bool-cases (report_holds r)) [
  | inl e ↦ e
  | inr e ↦ absurd (none-ne-some (rw e at h))
]
  where
    none-ne-some : ◌≡◌ {A = Option ReportDocument} none (some d) → ⊥
    none-ne-some k = cc

-- A report is marshalled exactly if its evidence is valid, its counts are valid, its started jobs are
-- the completed and failed ones, its outcome is the one derived, and its scope fits.
pub marshal_report_iff :
    (r : RunReport) → ((d : ReportDocument) × (marshal_report r ≡ some d)) ↔ IsReportable r
marshal_report_iff r = (
  λ h. IsReportable-of_holds r (marshal_report_needs r h.0 h.1),
  λ v. (document_of r, marshal_report-some r v),
)

exit_zero :
    (r : RunReport) (written : Bool)
    → write_run_report r written ≡ 0
    → (report_holds r ≡ true) × (r.outcome ≡ success)
unfolding write_run_report marshal_report
exit_zero r written h = ground arith

-- Exit code 0 means that the report was valid and that every record examined was a duplicate or a
-- completed recipient, of which there was one at least, in a run that was neither cancelled nor
-- fatal.
pub write_run_report_zero :
    (r : RunReport) (written : Bool)
    → write_run_report r written ≡ 0
    → IsReportable r
      × (r.fatal ≡ false)
      × (r.cancelled ≡ false)
      × (0 < r.counts.completed)
      × (r.counts.completed ≡ r.counts.eligible)
      × (r.counts.examined ≡ r.counts.duplicate + r.counts.completed)
write_run_report_zero r written h =
    let (holds, ok) = exit_zero r written h in
    let v = IsReportable-of_holds r holds in
    let (f, c, w, p, e, x) =
      (derive_outcome-success_iff r.counts r.cancelled r.fatal).0 (sym v.outcome_derived ∙ ok) in
    (v, f, c, p, e, x)
