-- ===== src/Host/Http.antt =====
-- host/main.c: `handle_http_request` and what `handle_client` answers.
use trust_chain.Base.{
  Bytes, codes, [], ◌++◌, Option, none, some, length, take, drop, str_eq, if◌then◌else◌, ltb,
  Action, pure, defined, modify, ◌>>=◌,
}
use trust_chain.Memory.{Cells, before_nul}
use trust_chain.Host.Libraries.{Libraries}
use trust_chain.Host.Text.{scan_word, starts_with, behind, atoi}
use trust_chain.Host.Answer.{send_json_response}
use trust_chain.Host.Handlers.{
  handle_init_repo, handle_commit, handle_access_control, handle_get_latest_hash,
}

abbrev pub preflight_response : Bytes
preflight_response =
    codes "HTTP/1.1 200 OK\r\nAccess-Control-Allow-Origin: *\r\n"
    ++ codes "Access-Control-Allow-Methods: GET, POST, OPTIONS\r\n"
    ++ codes "Access-Control-Allow-Headers: Content-Type\r\n\r\n"

-- `method[16]` and `path[256]`, and the body behind the empty line.
unfoldable pub parse_request : Bytes → Option (Bytes × Bytes × Bytes)
parse_request request = elim (scan_word 16 request) [
  | none ↦ none
  | some (method, rest) ↦ elim (scan_word 256 rest) [
    | none ↦ none
    | some (path, _) ↦ elim (behind (codes "\r\n\r\n") request) [
      | none ↦ some (method, path, [])
      | some body ↦ some (method, path, body)
    ]
  ]
]

module _ {W J : Type 0} (lib : Libraries W J) (stack : Cells) where
  abbrev not_found : Action W (Unit {0})
  not_found = send_json_response lib 404 (codes "{\"error\":\"Endpoint not found\"}")

  -- The branches on the method and the path, but for the preflight.
  unfoldable pub dispatch : Bytes → Bytes → Bytes → Action W (Unit {0})
  dispatch method path body =
      if str_eq method (codes "POST")
      then (if str_eq path (codes "/init-repo")
          then handle_init_repo lib stack body
          else if str_eq path (codes "/commit")
          then handle_commit lib stack body
          else if str_eq path (codes "/access-control")
          then handle_access_control lib stack body
          else not_found)
      else if str_eq method (codes "GET")
      then (if starts_with (codes "/latest-hash/") path
          then (do
            repo_id ← defined (atoi (drop 13 path))
            handle_get_latest_hash lib stack repo_id)
          else not_found)
      else send_json_response lib 405 (codes "{\"error\":\"Method not allowed\"}")

  unfoldable pub handle_http_request : Bytes → Action W (Unit {0})
  handle_http_request request = do
    (method, path, body) ← defined (parse_request request)
    (if str_eq method (codes "OPTIONS")
        then modify (lib.write preflight_response)
        else dispatch method path body)

  -- What `recv` gave, up to 4095 bytes; the request is what stands before the first NUL.
  unfoldable pub answer_received : Bytes → Action W (Unit {0})
  answer_received received =
      if ltb 0 (length received)
      then handle_http_request (before_nul (take 4095 received))
      else pure tt
