-- ===== src/Response/Tests.antt =====
-- Runs of a response.
use http_framework.Prelude.{◌≡◌, refl, true, false, [], ◌++◌, length}
use http_framework.Prelude.Bytes.{codes, crlf, same}
use http_framework.Prelude.Maps.{lookup, insert}
use http_framework.Request.Text.{to_lower_case, trim_left, trim_right}
use http_framework.Response.{
  HttpResponse, canonical_header_name, spelling_of, capitalize, set_header, get_header,
  set_content_length, digits, to_text, set_body, set_json, set_html, set_text, header_text,
  to_string,
}
use http_framework.Response.Headers.{get_header-set_header, set_body_lem}

abbrev empty_response : HttpResponse
empty_response = record {
  status_code = 200;
  reason_phrase = codes "OK";
  headers = [];
  body = [];
  sent = false;
}

-- The text for a HEAD request has the length of the body, and no body.
head_text :
    to_string true (set_body (codes "twelve bytes") empty_response)
    ≡ codes "HTTP/1.1 200 OK" ++ crlf ++ codes "Content-Length: 12" ++ crlf ++ crlf
unfolding to_string set_body set_content_length set_header header_text canonical_header_name
    spelling_of capitalize digits insert to_lower_case trim_left trim_right lookup same
head_text = refl

get_header-set_header_example :
    get_header (codes "x-ID") (set_header (codes "X-Id") (codes "7") empty_response) ≡ codes "7"
unfolding to_lower_case
get_header-set_header_example =
    get_header-set_header (codes "X-Id") (codes "x-ID") (codes "7") empty_response refl

set_body_lem_example :
    ((get_header (codes "content-length") (set_json (codes "{}") empty_response)
        ≡ to_text (length (codes "{}")))
      × ((set_json (codes "{}") empty_response).body ≡ codes "{}"))
    × ((get_header (codes "content-length") (set_html (codes "{}") empty_response)
          ≡ to_text (length (codes "{}")))
        × ((set_html (codes "{}") empty_response).body ≡ codes "{}"))
    × ((get_header (codes "content-length") (set_text (codes "{}") empty_response)
          ≡ to_text (length (codes "{}")))
        × ((set_text (codes "{}") empty_response).body ≡ codes "{}"))
set_body_lem_example = set_body_lem (codes "{}") empty_response
