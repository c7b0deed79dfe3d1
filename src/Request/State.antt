-- ===== src/Request/State.antt =====
-- include/http/HttpRequest.h: the members of HttpRequest, and its reading and writing accessors
-- of src/http/HttpRequest.cpp.
use http_framework.Prelude.{ℕ, ◌*◌, Bool, true, false, not, Option, none, some, [], if◌then◌else◌}
use http_framework.Prelude.Bytes.{Bytes, codes, same}
use http_framework.Prelude.Maps.{Assoc, lookup, insert, contains, bytes_eq}
use http_framework.Request.Text.{to_lower_case, to_upper_case}

pub data HttpMethod : Type 0 where
  get post put delete patch head options unknown : HttpMethod

pub record HttpRequest : Type 0 where
  pub method : HttpMethod
  pub method_string : Bytes
  pub path : Bytes
  pub version : Bytes
  pub headers : Assoc Bytes Bytes
  pub queries : Assoc Bytes Bytes
  pub params : Assoc Bytes Bytes
  pub user_data : Assoc Bytes Bytes
  pub body : Bytes
  pub raw_request : Bytes
  pub header_end : ℕ
  pub header_end_sep_len : ℕ
  pub raw_body_size : ℕ
  pub body_consumed : ℕ
  pub content_length : ℕ
  pub content_length_valid : Bool
  pub conflicting_framing : Bool
  pub malformed : Bool
  pub body_too_large : Bool
  pub max_body_size : ℕ

-- A new request, with the default limit of 64 MB.
unfoldable pub new_request : HttpRequest
new_request = record {
  method = unknown;
  method_string = [];
  path = [];
  version = [];
  headers = [];
  queries = [];
  params = [];
  user_data = [];
  body = [];
  raw_request = [];
  header_end = 0;
  header_end_sep_len = 0;
  raw_body_size = 0;
  body_consumed = 0;
  content_length = 0;
  content_length_valid = true;
  conflicting_framing = false;
  malformed = false;
  body_too_large = false;
  max_body_size = 64 * 1024 * 1024;
}

-- An accessor returns a static empty text for a missing key.
abbrev pub or_empty : Option Bytes → Bytes
or_empty none = []
or_empty (some value) = value

unfoldable pub get_header : HttpRequest → Bytes → Bytes
unfolding lookup to_lower_case
get_header r name = or_empty (lookup (to_lower_case name) r.headers)

unfoldable pub has_header : HttpRequest → Bytes → Bool
unfolding lookup to_lower_case
has_header r name = contains (to_lower_case name) r.headers

unfoldable pub get_query : HttpRequest → Bytes → Bytes
unfolding lookup
get_query r name = or_empty (lookup name r.queries)

unfoldable pub get_param : HttpRequest → Bytes → Bytes
unfolding lookup
get_param r name = or_empty (lookup name r.params)

unfoldable pub set_param : HttpRequest → Bytes → Bytes → HttpRequest
unfolding insert
set_param r name value = record r { params = insert name value r.params }

unfoldable pub set_user_data : HttpRequest → Bytes → Bytes → HttpRequest
unfolding insert
set_user_data r key value = record r { user_data = insert key value r.user_data }

unfoldable pub get_user_data : HttpRequest → Bytes → Bytes
unfolding lookup
get_user_data r key = or_empty (lookup key r.user_data)

unfoldable pub string_to_method : Bytes → HttpMethod
unfolding to_upper_case same
string_to_method name =
    let upper = to_upper_case name in
    if same upper (codes "GET")
    then get
    else if same upper (codes "POST")
    then post
    else if same upper (codes "PUT")
    then put
    else if same upper (codes "DELETE")
    then delete
    else if same upper (codes "PATCH")
    then patch
    else if same upper (codes "HEAD")
    then head
    else if same upper (codes "OPTIONS")
    then options
    else unknown

-- HTTP/1.1 keeps the connection unless told to close, HTTP/1.0 only if asked to keep it.
unfoldable pub is_keep_alive : HttpRequest → Bool
unfolding get_header to_lower_case same
is_keep_alive r =
    let connection = to_lower_case (get_header r (codes "connection")) in
    if same r.version (codes "HTTP/1.1")
    then not (same connection (codes "close"))
    else if same r.version (codes "HTTP/1.0")
    then same connection (codes "keep-alive")
    else false
