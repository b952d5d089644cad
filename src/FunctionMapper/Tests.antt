-- ===== src/FunctionMapper/Tests.antt =====
-- Two handlers: one for a path, and one for a path with a variable.
use rellaf.Prelude.{ℕ, [], ◌∷◌, Bool, true, false, Bytes, codes, ◌≡◌, ◌⊎◌, refl}
use rellaf.Prelude.Maps.{find, emplace, same, bytes_eq}
use rellaf.Prelude.Ints.{pos, negsuc}
use rellaf.Outcome.{Outcome, returned}
use rellaf.Str.{split}
use rellaf.Str.Trim.{trim}
use rellaf.UrlPattern.{fetch_path_vars_prefix}
use rellaf.UrlTrie.{put, put_at, is_var, update_next, find_next, fetch_vars, fetch_at}
use rellaf.FunctionMapper.{
  FunctionMapper, new_mapper, reg, reg_api, add_api, find_name, fetch_name, invoke, HttpHeader,
  Controller, Handler, not_found, return_response, entry,
}
use rellaf.FunctionMapper.Answers.{Registers, empty, later, Answers, entry-Answers}

abbrev new_header : Bytes → HttpHeader
new_header path = record { path = path; status_code = 200; content_type = []; fields = [] }

-- A call of a path.
abbrev call_of : Bytes → Bytes → Controller
call_of path body = record {
  request_header = new_header path;
  request_attachment = body;
  response_header = new_header [];
  response_attachment = [];
}

-- A handler that fails, and one that answers with 201 and the variable of the path or the body.
abbrev run : Handler Bool
run true vars cntl = ((negsuc 0, []), (cntl.response_header, cntl.response_attachment))
run false vars cntl = (
  (pos 0, elim vars [ [] ↦ cntl.request_attachment | (k, v) ∷ _ ↦ v ]),
  (record (cntl.response_header) { status_code = 201 }, []),
)

abbrev replaced : Bytes → Bytes → Bytes
replaced raw old = raw

abbrev answer : Outcome Controller → ℕ × (ℕ × Bytes)
answer (returned cntl) =
    (cntl.response_header.status_code, (cntl.request_header.status_code, cntl.response_attachment))
answer _ = (0, (0, []))

abbrev mapper_of : Outcome (FunctionMapper Bool) → FunctionMapper Bool
mapper_of (returned m) = m
mapper_of _ = new_mapper

abbrev first : FunctionMapper Bool
first = mapper_of (reg (codes " users ") (codes "list") false new_mapper)

abbrev both : FunctionMapper Bool
both = mapper_of (reg (codes "/users/{id}") (codes "get") false first)

listed :
    answer (entry replaced run (call_of (codes "/users") (codes "hi")) both)
    ≡ (201, (200, codes "hi"))
unfolding entry fetch_name find_name invoke reg reg_api add_api trim fetch_path_vars_prefix put
    put_at is_var update_next find_next split find emplace same
listed = refl

with_id :
    answer (entry replaced run (call_of (codes "/users/42") (codes "hi")) both)
    ≡ (201, (200, codes "42"))
unfolding entry fetch_name find_name invoke reg reg_api add_api trim fetch_path_vars_prefix put
    put_at is_var update_next find_next fetch_vars fetch_at split find emplace same
with_id = refl

-- A handler that fails is answered with the status that the response had.
failed :
    answer (
      entry replaced run
        (call_of (codes "/bad") [])
        (mapper_of (reg (codes "/bad") (codes "b") true new_mapper)))
    ≡ (200, (500, []))
unfolding entry fetch_name find_name invoke reg reg_api add_api trim fetch_path_vars_prefix find
    emplace same
failed = refl

first-Registers : Registers first
unfolding reg reg_api add_api trim fetch_path_vars_prefix emplace
first-Registers = later (codes " users ") (codes "list") false empty refl

entry-Answers_example :
    (cntl' : Controller) × (entry replaced run (call_of (codes "/users") (codes "hi")) first
      ≡ returned cntl')
    × ((cntl' ≡ return_response replaced [] (not_found (call_of (codes "/users") (codes "hi"))))
        ⊎ Answers replaced run first (call_of (codes "/users") (codes "hi")) cntl')
entry-Answers_example =
    entry-Answers replaced run first (call_of (codes "/users") (codes "hi")) b'/' (codes "users")
      first-Registers refl
