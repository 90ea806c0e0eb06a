-- ===== src/Http/Request/Types.antt =====
-- The types of http/request.rs.
use servoxide.Prelude.{ℕ}
use servoxide.Text.{Bytes}
use servoxide.Dict.{Dict}

pub record Request : Type 0 where
  pub method : Bytes
  pub path : Bytes
  pub query : Bytes
  pub headers : Dict Bytes Bytes
  pub body : Bytes

pub record RequestHead : Type 0 where
  pub method : Bytes
  pub path : Bytes
  pub query : Bytes
  pub version : Bytes
  pub headers : Dict Bytes Bytes
  pub head_len : ℕ

pub data HeadStatus : Type 0 where
  need_more : HeadStatus
  ok : RequestHead → HeadStatus
  bad : ℕ → HeadStatus

pub data BodyMode : Type 0 where
  empty : BodyMode
  length : ℕ → BodyMode
  chunked : BodyMode

pub data BodyStatus : Type 0 where
  need_more : BodyStatus
  complete : Bytes → ℕ → BodyStatus
  too_large : BodyStatus
  bad : ℕ → BodyStatus
