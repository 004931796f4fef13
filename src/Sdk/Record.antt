-- ===== src/Sdk/Record.antt =====
-- include/microtel/internal/batch.hpp and attribute.hpp: a finished span as the pipeline carries
-- it. A `double` is its bit pattern, a shared Resource is the address of the object, and a time
-- point is nanoseconds since the epoch.
use microtel.Prelude.{ℕ, Bool, List, Option}
use microtel.Prelude.Bytes.{Bytes}
use microtel.Prelude.Int.{ℤ}
use microtel.Api.Trace.{SpanContext}

pub data AttributeValue : Type 0 where
  boolean : Bool → AttributeValue
  int64 : ℤ → AttributeValue
  double : ℕ → AttributeValue
  string : Bytes → AttributeValue
  booleans : List Bool → AttributeValue
  int64s : List ℤ → AttributeValue
  doubles : List ℕ → AttributeValue
  strings : List Bytes → AttributeValue

pub record KeyValue : Type 0 where
  pub key : Bytes
  pub value : AttributeValue

pub data SpanKind : Type 0 where
  internal server client producer consumer : SpanKind

pub data StatusCode : Type 0 where
  unset ok error : StatusCode

pub record SpanEvent : Type 0 where
  pub name : Bytes
  pub timestamp : ℤ
  pub attributes : List KeyValue

pub record SpanLink : Type 0 where
  pub linked_context : SpanContext
  pub attributes : List KeyValue

pub record InstrumentationScope : Type 0 where
  pub name : Bytes
  pub version : Bytes

pub record SpanRecord : Type 0 where
  pub context : SpanContext
  pub parent_context : SpanContext
  pub name : Bytes
  pub kind : SpanKind
  pub status_code : StatusCode
  pub status_description : Bytes
  pub start_time : ℤ
  pub end_time : ℤ
  pub attributes : List KeyValue
  pub events : List SpanEvent
  pub links : List SpanLink
  pub resource : Option ℕ
