-- ===== src/Domain/Models.antt =====
-- The request values of key-aggregation-server/app/domain/models.py that the store keeps;
-- Validation has the requests as they are received.
pub mod Validation
pub mod Names
mod Tests
use deki_smpc_server.Prelude.{ℕ, Text, List}

-- `SUPPORTED_DTYPES`.
pub data Dtype : Type 0 where
  float16 bfloat16 float32 float64 uint8 int8 int16 int32 int64 : Dtype

pub data TensorPolicy : Type 0 where
  mean sum keep_local : TensorPolicy

pub record TensorSchema : Type 0 where
  pub name : Text
  pub shape : List ℕ
  pub dtype : Dtype
  pub policy : TensorPolicy

-- `aggregation_policy` has one value, `EQUAL_WEIGHTED`.
pub data AggregationPolicy : Type 0 where
  equal_weighted : AggregationPolicy

pub record ModelSchema : Type 0 where
  pub aggregation_policy : AggregationPolicy
  pub entries : List TensorSchema
  pub precision_bits : ℕ
