-- ===== src/FunctionMapper.antt =====
-- `FunctionMapper` of include/brpc/function_mapper.hpp and `BrpcService::entry` of
-- src/brpc/brpc_service.cpp: handlers by path. A handler is a value of the type `H`, which the
-- parameter `call` runs on the variables of the path and the controller of the call.
pub mod Closed
pub mod Answers
mod Tests
use rellaf.Prelude.{
  ℕ, List, [], ◌∷◌, Bool, true, false, Option, none, some, Bytes, codes, ◌==◌, is_empty,
  if◌then◌else◌,
}
use rellaf.Prelude.Maps.{find, emplace, bytes_eq}
use rellaf.Prelude.Ints.{ℤ, negsuc, same_int}
use rellaf.Outcome.{Outcome, returned, refused, fault, ◌>>=◌}
use rellaf.Str.Trim.{trim}
use rellaf.UrlPattern.{fetch_path_vars_prefix}
use rellaf.UrlTrie.{UrlTrieNode, new_node, put, Put, fetch_vars, Fetched}

pub record FunctionMapper {ℓ} (H : Type ℓ) : Type ℓ where
  pub api_hdrs : List (Bytes × Bytes)
  pub path_vars : UrlTrieNode
  pub funcs : List (Bytes × H)

-- The variables of a path by their names.
abbrev pub PathVars : Type 0
PathVars = List (Bytes × Bytes)

-- `if (api.front() != '/') { api = "/" + api; }`; an empty text has no front.
abbrev pub with_slash : Bytes → Outcome Bytes
with_slash [] = fault
with_slash (c ∷ s) = returned (if c == b'/' then c ∷ s else b'/' ∷ c ∷ s)

-- The name of the route, or no name; `vars` may be changed also then.
abbrev pub fetched_name : Option Fetched → Outcome (Bytes × PathVars)
fetched_name none = fault
fetched_name (some f) = returned (if f.ret then f.name else [], f.vals)

module _ {ℓ} {H : Type ℓ} where
  abbrev pub new_mapper : FunctionMapper H
  new_mapper = record { api_hdrs = []; path_vars = new_node; funcs = [] }

  -- `_path_vars.put`, which always returns.
  abbrev pub put_path : FunctionMapper H → Option Put → Outcome (FunctionMapper H)
  put_path m none = fault
  put_path m (some p) = returned (record m { path_vars = p.entrys })

  unfoldable pub add_api : Bytes → Bytes → FunctionMapper H → Outcome (FunctionMapper H)
  unfolding emplace put fetch_path_vars_prefix
  add_api api name m =
      let m' = record m { api_hdrs = emplace api name m.api_hdrs } in
      elim (fetch_path_vars_prefix api) [
        | none ↦ returned m'
        | some prefix ↦ put_path m' (put m.path_vars api name)
      ]

  unfoldable pub reg_api : Bytes → Bytes → FunctionMapper H → Outcome (FunctionMapper H)
  unfolding trim add_api
  reg_api api name m = with_slash (trim [] api) >>= λ api_filter. add_api api_filter name m

  -- `reg`; the HTTP method is not looked at.
  unfoldable pub reg : Bytes → Bytes → H → FunctionMapper H → Outcome (FunctionMapper H)
  unfolding reg_api emplace
  reg api name func m =
      reg_api api name m >>= λ m'. returned (record m' { funcs = emplace name func m'.funcs })

  unfoldable pub find_name : Bytes → PathVars → FunctionMapper H → Outcome (Bytes × PathVars)
  unfolding find fetch_vars
  find_name api vars m = elim (find api m.api_hdrs) [
    | some name ↦ returned (name, vars)
    | none ↦ fetched_name (fetch_vars m.path_vars api [] vars)
  ]

  unfoldable pub fetch_name : Bytes → PathVars → FunctionMapper H → Outcome (Bytes × PathVars)
  unfolding find_name
  fetch_name path vars m = with_slash path >>= λ api. find_name api vars m

-- What is used of brpc's header of a request or response, with its other lines.
pub record HttpHeader : Type 0 where
  pub path : Bytes
  pub status_code : ℕ
  pub content_type : Bytes
  pub fields : List (Bytes × Bytes)

-- The headers and the attachments of a call.
pub record Controller : Type 0 where
  pub request_header : HttpHeader
  pub request_attachment : Bytes
  pub response_header : HttpHeader
  pub response_attachment : Bytes

-- What a handler gets and leaves: of its `HttpContext`, the header and the body of the response can be
-- changed. It returns a number and `ret_body`.
abbrev pub Handler {ℓ} : Type ℓ → Type ℓ
Handler H = H → PathVars → Controller → (ℤ × Bytes) × (HttpHeader × Bytes)

module _ {ℓ} {H : Type ℓ} (call : Handler H) where
  -- The number, `ret_body`, and the call behind it.
  unfoldable pub invoke :
      Bytes → PathVars → Controller → FunctionMapper H → (ℤ × Bytes) × Controller
  unfolding find
  invoke name vars cntl m = elim (find name m.funcs) [
    | none ↦ ((negsuc 0, []), cntl)
    | some func ↦
        let (result, (header, body)) = call func vars cntl in
        (
          result,
          record cntl {
            response_header = record header { content_type = codes "application/json" };
            response_attachment = body;
          },
        )
  ]

-- `cntl->http_response().set_status_code(brpc::HTTP_STATUS_NOT_FOUND)`
abbrev pub not_found : Controller → Controller
not_found cntl = record cntl {
  response_header = record (cntl.response_header) { status_code = 404 };
}

-- The status of an internal error, which is set in the header of the request.
abbrev pub internal_error : ℤ → Controller → Controller
internal_error status cntl =
    if same_int status (negsuc 0)
    then record cntl { request_header = record (cntl.request_header) { status_code = 500 } }
    else cntl

-- `move_to` is `IOBufBuilder::move_to`, from the text and what its target held.
module _ (move_to : Bytes → Bytes → Bytes) where
  abbrev pub return_response : Bytes → Controller → Controller
  return_response raw cntl = record cntl {
    response_attachment = move_to raw cntl.response_attachment;
  }

  module _ {ℓ} {H : Type ℓ} (call : Handler H) where
    unfoldable pub entry : Controller → FunctionMapper H → Outcome Controller
    unfolding fetch_name invoke
    entry cntl m = fetch_name cntl.request_header.path [] m >>= λ (name, vars).
        if is_empty name
        then returned (return_response [] (not_found cntl))
        else (let ((status, ret_body), cntl') = invoke call name vars cntl m in
            returned (return_response ret_body (internal_error status cntl')))
