-- ===== src/Grpc.antt =====
-- The messages of api/grpc/api.proto as api/grpc/api.pb.go declares them. A Go map that is nil is
-- `none`, since the event loop tells a nil `Data` from an empty one.
use bpfd.Prelude.{ℕ, Option, List, nat_eq, ℤ, Text, text_eq}

pub record Filter : Type 0 where
  pub values : List Text

pub record Rule : Type 0 where
  pub name : Text
  pub tracer : Text
  pub filter_events : List (Text × Filter)
  pub container_runtimes : List Text
  pub actions : List Text

pub record Event : Type 0 where
  pub pid : ℕ
  pub tgid : ℕ
  pub uid : ℕ
  pub gid : ℕ
  pub command : Text
  pub return_value : ℤ
  pub event_data : Option (List (Text × Text))
  pub container_id : Text
  pub container_runtime : Text
  pub tracer : Text

pub record CreateRuleRequest : Type 0 where
  pub rule : Option Rule

pub record RemoveRuleRequest : Type 0 where
  pub name : Text
  pub tracer : Text

pub record ListRulesResponse : Type 0 where
  pub rules : List Rule
