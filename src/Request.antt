-- ===== src/Request.antt =====
-- src/core/connection.h (`sp_request_s`), src/core/request.h and src/core/const_c.h: the part of
-- a request that the parsers of src/core/request.cpp read and write.
pub mod Chars
pub mod Http
pub mod Method
pub mod Target
pub mod Version
pub mod Line
pub mod Header
use evcp.Base.{ℕ, Option, none, some, Bytes, replicate}

-- `NGX_OK`, `NGX_AGAIN`, `NGX_HTTP_PARSE_HEADER_DONE`, `NGX_HTTP_PARSE_INVALID_…`
pub data ParseError : Type 0 where
  invalid_method invalid_request invalid_09_method invalid_header : ParseError

pub data Code : Type 0 where
  ok again header_done : Code
  error : ParseError → Code

-- The states of `sp_parse_request_line`.
pub data LineState : Type 0 where
  start method spaces_before_uri : LineState
  schema schema_slash schema_slash_slash host port : LineState
  after_slash_in_uri check_uri uri : LineState
  http_09 http_h http_ht http_htt http_http : LineState
  first_major_digit major_digit first_minor_digit minor_digit : LineState
  spaces_after_digit almost_done : LineState

-- The states of `sp_parse_header_line`.
pub data HeaderState : Type 0 where
  start name space_before_value value space_after_value ignore_line : HeaderState
  almost_done header_almost_done : HeaderState

-- A pointer into `buf` is its offset. A pointer that the code compares with NULL is an option;
-- the others are 0 until they are set, as the `memset` of `conn_init` leaves them. The one word
-- `state` is a field for each parser here: either parser leaves it at 0, `sw_start`, when it is
-- done, and that is the `sw_start` of the other one.
pub record Request : Type 0 where
  pub pos : ℕ
  pub line_state : LineState
  pub header_state : HeaderState
  pub method : ℕ
  pub complex_uri : ℕ
  pub quoted_uri : ℕ
  pub plus_in_uri : ℕ
  pub request_start : ℕ
  pub request_end : Option ℕ
  pub method_end : ℕ
  pub uri_start : ℕ
  pub uri_end : ℕ
  pub uri_ext : Option ℕ
  pub args_start : Option ℕ
  pub schema_start : ℕ
  pub schema_end : ℕ
  pub host_start : ℕ
  pub host_end : ℕ
  pub port_end : ℕ
  pub http_protocol : Option ℕ
  pub http_major : ℕ
  pub http_minor : ℕ
  pub http_version : ℕ
  pub header_name_start : ℕ
  pub header_name_end : ℕ
  pub header_start : ℕ
  pub header_end : ℕ
  pub invalid_header : ℕ
  pub lowcase_index : ℕ
  pub lowcase_header : Bytes

-- `NGX_HTTP_LC_HEADER_LEN`
abbrev pub lc_header_len : ℕ
lc_header_len = 32

-- `memset(c->data, 0, sizeof(sp_request))` in `conn_init`
abbrev pub fresh : Request
fresh = record {
  pos = 0;
  line_state = LineState.start;
  header_state = HeaderState.start;
  method = 0;
  complex_uri = 0;
  quoted_uri = 0;
  plus_in_uri = 0;
  request_start = 0;
  request_end = none;
  method_end = 0;
  uri_start = 0;
  uri_end = 0;
  uri_ext = none;
  args_start = none;
  schema_start = 0;
  schema_end = 0;
  host_start = 0;
  host_end = 0;
  port_end = 0;
  http_protocol = none;
  http_major = 0;
  http_minor = 0;
  http_version = 0;
  header_name_start = 0;
  header_name_end = 0;
  header_start = 0;
  header_end = 0;
  invalid_header = 0;
  lowcase_index = 0;
  lowcase_header = replicate lc_header_len 0;
}

-- What one character does to a parser whose states are `S`: go on, leave the loop by a `goto`
-- (`done`, or `header_done` of the header parser), or return an error at once.
pub data Outcome (S : Type 0) : Type 0 where
  go : S → Request → Outcome S
  done : Request → Outcome S
  finished : Request → Outcome S
  fail : ParseError → Request → Outcome S
