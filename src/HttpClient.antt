-- ===== src/HttpClient.antt =====
-- The client of include/brpc/http_client.h and src/brpc/http_client.cpp. The channel and the controller of
-- brpc are the parameter `Channel`, with the outer world as a type `W`.
pub mod Body
mod Tests
use rellaf.Prelude.{
  ℕ, List, [], ◌∷◌, Bool, true, false, ◌||◌, Option, none, some, Bytes, is_empty, if◌then◌else◌,
}
use rellaf.Prelude.Ints.{ℤ, pos, negsuc}

pub data HttpMethod : Type 0 where
  http_method_get http_method_post : HttpMethod

-- What is set in the controller before the call, in the order of the calls of `SetHeader` and
-- `SetQuery`.
pub record Request : Type 0 where
  pub method : HttpMethod
  pub uri : Bytes
  pub content_type : Option Bytes
  pub headers : List (Bytes × Bytes)
  pub query : List (Bytes × Bytes)
  pub attachment : Bytes

pub record HttpResponse : Type 0 where
  pub body : Bytes
  pub status : ℤ
  pub content_type : Bytes
  pub reason_phrase : Bytes
  pub compress_type : ℕ

-- `Init` with the timeout, and `CallMethod` with what it leaves in the controller.
pub record Channel {ℓ} (W : Type ℓ) : Type ℓ where
  pub init : Bytes → ℤ → Bool
  pub call : Request → ℤ → W → HttpResponse × W
  pub failed : Request → ℤ → W → Bool
  pub is_canceled : Request → ℤ → W → Bool

-- What a call returns, the response behind it, and the world.
pub record Called {ℓ} (W : Type ℓ) : Type ℓ where
  pub ret : ℤ
  pub response : HttpResponse
  pub world : W

abbrev set_content_type : Bytes → Option Bytes
set_content_type content_type = if is_empty content_type then none else some content_type

module _ {ℓ} {W : Type ℓ} (channel : Channel W) where
  unfoldable pub http_request :
      Bytes
      → HttpMethod
      → List (Bytes × Bytes)
      → List (Bytes × Bytes)
      → Bytes
      → Bytes
      → HttpResponse
      → ℤ
      → W
      → Called W
  http_request api method params headers content_type request_body response timeout w =
      let r : Request = record {
        method = method;
        uri = api;
        content_type = set_content_type content_type;
        headers = headers;
        query = params;
        attachment = request_body;
      } in
      let (answer, w') = channel.call r timeout w in
      if channel.init api timeout
      then record {
        ret =
            if channel.failed r timeout w || channel.is_canceled r timeout w
            then negsuc 0
            else pos 0;
        response = answer;
        world = w';
      }
      else record { ret = negsuc 0; response = response; world = w }

  unfoldable pub http_get : Bytes → List (Bytes × Bytes) → HttpResponse → ℤ → W → Called W
  unfolding http_request
  http_get api params response timeout w =
      http_request api http_method_get params [] [] [] response timeout w

  unfoldable pub http_post : Bytes → List (Bytes × Bytes) → Bytes → HttpResponse → ℤ → W → Called W
  unfolding http_request
  http_post api params request_body response timeout w =
      http_request api http_method_post params [] request_body [] response timeout w
