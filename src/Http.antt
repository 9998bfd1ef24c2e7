-- ===== src/Http.antt =====
-- proto/http.proto: requests and responses, without their payloads.
use polar_express.Base.{ℕ, Bool, false, Bytes, List, []}

pub record KeyValue : Type 0 where
  pub key : Bytes
  pub value : Bytes

pub data Method : Type 0 where
  get : Method
  put : Method
  post : Method
  delete : Method

pub record HttpRequest : Type 0 where
  pub method : Method
  pub is_secure : Bool
  pub hostname : Bytes
  pub path : Bytes
  pub query_parameters : List KeyValue
  pub request_headers : List KeyValue

-- A status code is an int32: a negative one stands as its 32 bits.
pub record HttpResponse : Type 0 where
  pub transport_succeeded : Bool
  pub http_version : Bytes
  pub is_secure : Bool
  pub status_code : ℕ
  pub status_phrase : Bytes
  pub response_headers : List KeyValue

-- A response after Clear.
abbrev pub cleared : HttpResponse
cleared = record {
  transport_succeeded = false;
  http_version = [];
  is_secure = false;
  status_code = 200;
  status_phrase = [];
  response_headers = [];
}
