-- ===== src/HttpClient/Body.antt =====
-- What `http_post` sends.
use rellaf.Prelude.{ℕ, List, [], ◌∷◌, true, none, some, Bytes, ◌≡◌, refl}
use rellaf.Prelude.Ints.{ℤ}
use rellaf.HttpClient.{HttpResponse, Request, Channel, http_method_post, http_request, http_post}

module _ {ℓ} {W : Type ℓ} (channel : Channel W) where
  -- On a channel that can be initialised, http_post with a body that is not empty sends a request
  -- without a body, whose content type is the body; http_request with the body in its place sends it.
  pub http_post-attachment :
      (api : Bytes) (params : List (Bytes × Bytes)) (c : ℕ) (s : Bytes) (response : HttpResponse)
      (timeout : ℤ) (w : W)
      → channel.init api timeout ≡ true
      → (r : Request) × (r.attachment ≡ [])
        × (r.content_type ≡ some (c ∷ s))
        × ((http_post channel api params (c ∷ s) response timeout w).world
            ≡ (channel.call r timeout w).1)
        × ((http_post channel api params (c ∷ s) response timeout w).response
            ≡ (channel.call r timeout w).0)
        × ((http_request channel api http_method_post params [] [] (c ∷ s) response timeout w).world
            ≡ (channel.call (record r { attachment = c ∷ s; content_type = none }) timeout w).1)
  unfolding http_post http_request
  http_post-attachment api params c s response timeout w h = (
    record {
      method = http_method_post;
      uri = api;
      content_type = some (c ∷ s);
      headers = [];
      query = params;
      attachment = [];
    },
    refl,
    refl,
    rw h refl,
    rw h refl,
    rw h refl,
  )
