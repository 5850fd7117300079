-- ===== src/Model/Observation.antt =====
-- Fact and Observation of internal/model/fact.go, without the payloads of single probes.
use capagent.Base.{Text, List, ℕ}
use capagent.Model.Scope.{EvaluationScope}
use capagent.Model.States.{Completeness}
use capagent.Model.Evidence.{Time}

pub record Fact : Type 0 where
  pub id : Text
  pub scope : EvaluationScope
  pub completeness : Completeness
  pub source : Text
  pub raw_data : List ℕ
  pub text : Text
  pub timestamp : Time

pub record Observation : Type 0 where
  pub id : Text
  pub probe_id : Text
  pub timestamp : Time
  pub summary : Text
  pub scope : EvaluationScope
  pub completeness : Completeness
  pub facts : List Fact
