-- ===== src/Request.antt =====
-- What the proxy reads of a request: the interface of include/api_manager/request.h, which the front
-- end implements. A header or a query parameter that is missing is `none`.
use esp.Base.{Option, Str, bytes}

-- `Protocol` of include/api_manager/protocol.h, and its `ToString`.
pub data Protocol : Type 0 where
  unknown http https grpc : Protocol

abbrev pub protocol_to_string : Protocol → Str
protocol_to_string unknown = bytes "unknown"
protocol_to_string http = bytes "http"
protocol_to_string https = bytes "https"
protocol_to_string grpc = bytes "grpc"

pub record Request : Type 0 where
  pub frontend_protocol : Protocol
  pub backend_protocol : Protocol
  pub http_method : Str
  pub unparsed_path : Str
  pub path : Str
  pub query_parameters : Str
  pub client_ip : Str
  pub client_host : Str
  pub find_header : Str → Option Str
  pub find_query : Str → Option Str
