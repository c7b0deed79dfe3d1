-- ===== src/Response/Headers.antt =====
-- src/http/HttpResponse.cpp: the headers of a response as a map on names without case, and the body's
-- length.
use http_framework.Prelude.{
  ◌≡◌, refl, ap, ◌∙◌, Bool, true, false, Option, some, if◌then◌else◌, length,
}
use http_framework.Prelude.Bytes.{Bytes, codes, same, same_refl}
use http_framework.Prelude.Maps.{lookup, bytes_eq, lookup-insert}
use http_framework.Request.Text.{to_lower_case}
use http_framework.Request.State.{or_empty}
use http_framework.Response.{
  HttpResponse, spelling_of, canonical_header_name, set_header, get_header, set_content_type,
  to_text, set_content_length, set_body, set_json, set_html, set_text,
}

canonical_header_name-case :
    (n m : Bytes)
    → to_lower_case n ≡ to_lower_case m
    → canonical_header_name n ≡ canonical_header_name m
unfolding canonical_header_name
canonical_header_name-case n m h = ap spelling_of h

or_empty-if :
    (test : Bool) (value : Bytes) (found : Option Bytes)
    → or_empty (if test then some value else found) ≡ (if test then value else or_empty found)
or_empty-if true value found = refl
or_empty-if false value found = refl

get_header-set :
    (name asked value : Bytes) (r : HttpResponse)
    → get_header asked (set_header name value r) ≡ (
        if same (canonical_header_name name) (canonical_header_name asked)
        then value
        else get_header asked r)
unfolding get_header set_header
get_header-set name asked value r =
    ap or_empty
      (lookup-insert (canonical_header_name name) (canonical_header_name asked) value r.headers)
    ∙ or_empty-if (same (canonical_header_name name) (canonical_header_name asked)) value
        (lookup (canonical_header_name asked) r.headers)

-- A header that is set is read back under every name that differs from it in case only, whatever was
-- there before.
pub get_header-set_header :
    (name asked value : Bytes) (r : HttpResponse)
    → to_lower_case asked ≡ to_lower_case name
    → get_header asked (set_header name value r) ≡ value
get_header-set_header name asked value r h =
    get_header-set name asked value r
    ∙ rw (canonical_header_name-case asked name h, same_refl (canonical_header_name name)) refl

set_body-length :
    (body : Bytes) (r : HttpResponse)
    → get_header (codes "content-length") (set_body body r) ≡ to_text (length body)
unfolding set_body set_content_length to_lower_case
set_body-length body r =
    get_header-set_header (codes "Content-Length") (codes "content-length") (to_text (length body))
      (record r { body = body }) refl

-- setJson, setHtml and setText leave exactly the given body, and in Content-Length the decimal
-- number of its bytes, whatever the response held before.
pub set_body_lem :
    (body : Bytes) (r : HttpResponse)
    → ((get_header (codes "content-length") (set_json body r) ≡ to_text (length body))
        × ((set_json body r).body ≡ body))
      × ((get_header (codes "content-length") (set_html body r) ≡ to_text (length body))
          × ((set_html body r).body ≡ body))
      × ((get_header (codes "content-length") (set_text body r) ≡ to_text (length body))
          × ((set_text body r).body ≡ body))
unfolding set_json set_html set_text set_body set_content_length set_header
set_body_lem body r = (
  (set_body-length body (set_content_type (codes "application/json; charset=utf-8") r), refl),
  (set_body-length body (set_content_type (codes "text/html; charset=utf-8") r), refl),
  (set_body-length body (set_content_type (codes "text/plain; charset=utf-8") r), refl),
)
