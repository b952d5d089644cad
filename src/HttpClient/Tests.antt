-- ===== src/HttpClient/Tests.antt =====
-- A post whose body is lost, on a channel that keeps the requests.
use rellaf.Prelude.{List, [], ◌∷◌, true, false, none, some, codes, ◌≡◌, refl}
use rellaf.Prelude.Ints.{pos}
use rellaf.HttpClient.{HttpResponse, Request, Channel, http_method_post, http_request, http_post}
use rellaf.HttpClient.Body.{http_post-attachment}

abbrev empty_response : HttpResponse
empty_response = record {
  body = [];
  status = pos 200;
  content_type = [];
  reason_phrase = [];
  compress_type = 0;
}

abbrev keeping : Channel (List Request)
keeping = record {
  init = λ api timeout. true;
  call = λ r timeout sent. (empty_response, r ∷ sent);
  failed = λ r timeout sent. false;
  is_canceled = λ r timeout sent. false;
}

http_post-attachment_example :
    (r : Request) × (r.attachment ≡ [])
    × (r.content_type ≡ some (codes "x=1"))
    × ((http_post keeping (codes "h/p") [] (codes "x=1") empty_response (pos 100) []).world
        ≡ r ∷ [])
    × ((http_post keeping (codes "h/p") [] (codes "x=1") empty_response (pos 100) []).response
        ≡ empty_response)
    × ((http_request keeping
          (codes "h/p")
          http_method_post
          []
          []
          []
          (codes "x=1")
          empty_response
          (pos 100)
          []).world
        ≡ record r { attachment = codes "x=1"; content_type = none } ∷ [])
http_post-attachment_example =
    http_post-attachment keeping (codes "h/p") [] b'x' (codes "=1") empty_response (pos 100) [] refl
